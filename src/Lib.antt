-- ===== src/Lib.antt =====
-- alarm4pi: a home alarm for the Raspberry Pi. A main process starts a web server and a camera
-- streamer as child processes, a thread polls the alarm sensors on the GPIO pins, and each alarm
-- event is logged, notified and photographed.
--
-- The parts, each with the files here that model it and the code that they model:
--
-- * Proc models src/proc_helper.c. Proc/Substrings is the replacement of a substring at the start of
--   a word (`initial_strstr`, `count_initial_substrings`, `replace_initial_substrings`); Proc/Paths
--   the directory of the executable and absolute paths; Proc/Args the argument arrays on the heap
--   (`replace_initial_substring_array`, `free_substring_array`, `replace_relative_path_array`);
--   Proc/Children the list of child processes (`update_child_processes_state`,
--   `exec_exited_child_processes`, `run_background_command_out_log` in the parent); Proc/Wait the
--   loop of `wait_child_processes`; Proc/Pipes the children that are read from or written to through
--   a pipe (`run_background_command_out_array`, `run_background_command_in_array`); Proc/Time pauses
--   and the time elapsed.
-- * Gpio models src/gpio_control.c and the constants of src/gpio_control.h: the static variables are
--   the record `Gpio`, and each function takes and returns it. Gpio/Device is libgpiod, a parameter
--   (`Gpiod`) with the ownership that its documentation promises (`Ownership`); Gpio/Line builds the
--   request of a line; Gpio/Pins has the functions of the interface; Gpio/Configure is
--   `configure_gpios`.
-- * Polling models `polling_thread` of src/gpio_polling.c over `gpio_read` of Gpio.
-- * Capturer models src/capturer.c: the static variables are the record `Capturer`;
--   Capturer/Services is libcurl and the file system, a parameter (`Host`) with the ownership that
--   their documentation promises (`HostOwnership`); Capturer/Frame is `capturer_get_frame`.
--   Capturer/Files and Capturer/Errors have the documented behaviour of the files (`FileSystem`,
--   `Errors`), Capturer/Stored what the function leaves in them.
-- * Config models the loops that load the configuration files of src/owncloud.c, src/pushover2.c and
--   src/telegram.c, which differ in the table of variables only: Config/Lines has files that assign
--   values, an independent description of what is to be loaded; Config/Failing is about files of which
--   a read fails.
-- * Web is what these three ask of libcurl and the C library beyond `Host`: a parameter (`Web`) with
--   its documented ownership (`WebOwnership`). Web/Response is `curl_write_callback_fn` of
--   src/telegram.c and src/pushover2.c; Web/Session what the lives of the three have in common, an
--   interface (`Service`) that each of them fills.
-- * Telegram, Pushover and Owncloud model src/telegram.c, src/pushover2.c and src/owncloud.c: the
--   static variables of a file are a record, the functions have the names of the source, and
--   Pushover/Status reads the answer of the server.
-- * Alarm models what the alarm runs through in src/gpio_polling.c: `send_info_notif`,
--   `update_ip_msg`, `on_alarm_event`, the start of the services and `deinit_polling`. Daemon has
--   `init_polling`, the thread with the events that it raises, `wait_polling_end`, and the calls of
--   these in src/alarm4pi.c. The resolver states that src/public_ip.c never ends are counted.
-- * PublicIp models src/public_ip.c over the resolver of the C library, a parameter (`Resolver`);
--   PortMapping src/port_mapping.c over the UPnP library, a parameter (`Upnp`, `UpnpOwnership`), with
--   the calls of src/alarm4pi.c in PortMapping/Life; LogMsgs the files of src/log_msgs.c.
-- * CString has strings as lists of bytes and what the program uses of <string.h>; Prelude has the
--   names that all share.
-- * Tests has a libgpiod and a network that grant everything, and the theorems at concrete inputs.
--
-- How the parts interact: Proc/Children executes a child with the arguments that Proc/Args makes
-- absolute by Proc/Substrings and Proc/Paths; Proc/Wait calls Proc/Children when a child ends and
-- after each timeout; Polling reads the pins that Gpio/Configure set up;
-- Alarm sends its messages through Telegram and Pushover, and lets Capturer take a picture, which
-- Owncloud uploads, each on the world that the one before left.
--
-- State and errors: a function that changes variables takes and returns a state; an error code is a
-- number, 0 for success, with the errno values of Linux in Prelude/Errno; a NULL pointer is `none`.
-- The sizes that src/proc_helper.c hands to `malloc` are computed in a `size_t` of 32 bits.
-- What the operating system answers is an argument: lists of the answers to come for `malloc`,
-- `fork`, `waitpid`, `sigtimedwait`, `select`, `nanosleep` and the exit flag, and a world for libgpiod
-- and for the services of the capturer.
--
-- Fuel: the loops of Proc/Substrings take one more than the length of the text, and each of their
-- rounds goes at least one byte on, so that it is enough. The loops of Proc/Wait, Proc/Pipes and
-- Polling have no bound on their rounds; they run on the list of what their environment does, and a
-- list that ends leaves them waiting.
-- The loops of Config take the length of the text and two, since each round that goes on reads a
-- character or comes to the end of the file; when a read of the file fails there is no such bound, and
-- `none` stands for a loop that does not end.
-- The loop of `print_upnp_mapping` asks the router until it answers with an error, which no bound
-- holds for; it runs on fuel, and what is stated of it is so for any fuel.
--
-- Not modelled: the messages of `log_printf` (but for the count of the error lines of the polling
-- thread) and all else that src/log_msgs.c writes, the child's side of a fork and `daemonize` of
-- src/proc_helper.c, the write callback of src/capturer.c, two functions of src/gpio_polling.c that
-- are not called (`get_current_time`, `capture_images_cmd`), the texts of error codes in
-- src/public_ip.c, and in src/alarm4pi.c the creation of the web server and of the tunnel, the signal
-- handler and the order of the parts as a whole; the copy of mjpg-streamer, which is another project.
pub mod Prelude
pub mod CString
pub mod Proc
pub mod Gpio
pub mod Polling
pub mod Capturer
pub mod Tests
pub mod Alarm
pub mod Config
pub mod Daemon
pub mod LogMsgs
pub mod Owncloud
pub mod PortMapping
pub mod PublicIp
pub mod Pushover
pub mod Telegram
pub mod Web
