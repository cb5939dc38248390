-- ===== src/Tests/OnCapturer.antt =====
-- The theorems on src/capturer.c at concrete inputs, with services of which the world counts what is open.
use alarm4pi.Prelude.{none, ◌≡◌, refl, true, false, List, [], ◌∷◌, ◌==◌, inl, ◌⊎◌}
use alarm4pi.CString.{Bytes, codes, strstr, starts_with, has_byte}
use alarm4pi.Tests.Network.{counting, counting_own}
use alarm4pi.Capturer.{Capturer, capturer_deinit, validate_filename, build_full_path}
use alarm4pi.Capturer.Frame.{
  frame_paths, capturer_get_frame, file_opened, handle_made, performed, flushed, synced, closed,
  previous_found, previous_removed, renamed, drop_temp, abandon,
}
use alarm4pi.Capturer.Names.{IsLocal, IsUsable, frame_paths-IsUsable}
use alarm4pi.Alarm.Text.{equal_bytes}
use alarm4pi.Tests.Disk.{disk, disk_files, disk_errors}
use alarm4pi.Capturer.Stored.{IsStored, capturer_get_frame-IsStored}
use alarm4pi.Capturer.Life.{
  CapturerCall, init_call, get_frame_call, run_capturer_calls, capturer_deinit_closes_all,
}

abbrev idle : Capturer counting
idle = record {
  capture_path = [];
  snapshot_url = [];
  initialized = false;
  curl_global_initialized = false;
  world = 2;
}

abbrev a_frame : Bytes
a_frame = codes "front.jpg"

abbrev life : List CapturerCall
life =
    get_frame_call a_frame
    ∷ init_call (codes "/home/captures")
    ∷ get_frame_call a_frame
    ∷ get_frame_call (codes "../front.jpg")
    ∷ []

capturer_deinit_closes_all_example :
    (capturer_deinit counting (run_capturer_calls counting life idle)).world ≡ 2
capturer_deinit_closes_all_example =
    capturer_deinit_closes_all counting counting_own 2 life idle (inl refl, refl)

abbrev ready : Capturer counting
ready = record idle {
  capture_path = codes "/home/captures";
  initialized = true;
  curl_global_initialized = true;
}

frame_paths-IsUsable_example :
    (((frame_paths (codes "/home/captures") a_frame).0 == 0) ≡ false)
    ⊎ (IsLocal a_frame
        × IsUsable
            (codes "/home/captures")
            a_frame
            (frame_paths (codes "/home/captures") a_frame).1)
frame_paths-IsUsable_example = frame_paths-IsUsable (codes "/home/captures") a_frame

abbrev on_disk : Capturer disk
on_disk = record {
  capture_path = codes "/home/captures";
  snapshot_url = codes "http://localhost/?action=snapshot";
  initialized = true;
  curl_global_initialized = true;
  world = λ q. none;
}

frame_is_zero : (capturer_get_frame disk a_frame on_disk).0 ≡ 0
unfolding capturer_get_frame file_opened handle_made performed flushed synced closed previous_found
    previous_removed renamed drop_temp abandon frame_paths validate_filename build_full_path strstr
    starts_with has_byte equal_bytes
frame_is_zero = refl

capturer_get_frame-IsStored_example :
    (on_disk.initialized ≡ true)
    × IsLocal a_frame
    × IsStored disk disk_files on_disk.snapshot_url
        (frame_paths on_disk.capture_path a_frame).1
        on_disk.world
        (capturer_get_frame disk a_frame on_disk).1.world
capturer_get_frame-IsStored_example =
    capturer_get_frame-IsStored disk disk_files disk_errors a_frame on_disk frame_is_zero

abbrev elsewhere : Bytes
elsewhere = codes "/etc/passwd"
