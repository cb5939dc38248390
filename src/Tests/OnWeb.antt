-- ===== src/Tests/OnWeb.antt =====
-- The theorems on src/telegram.c, src/pushover2.c, src/owncloud.c and their configuration files at
-- concrete inputs.
use alarm4pi.Prelude.{
  false, ◌<◌, ◌≡◌, ◌≢◌, refl, false, some, List, [], ◌∷◌, ◌++◌, ◌==◌, ◌⊎◌, inl, length, arith,
}
use alarm4pi.CString.{Bytes, codes, starts_with, strstr}
use alarm4pi.Proc.Paths.{ExecEnv, target}
use alarm4pi.Config.{Variable, cleared, load_config}
use alarm4pi.Config.Load.{Ends, load_config-Ends}
use alarm4pi.Config.Lines.{Assignment, file, assigned}
use alarm4pi.Config.Files.{load_config-assigned}
use alarm4pi.Web.{Web}
use alarm4pi.Web.Response.{no_response, joined, received}
use alarm4pi.Web.Pieces.{Receives, received-Receives}
use alarm4pi.Telegram.{Telegram, telegram_variables, telegram_init}
use alarm4pi.Telegram.Start as TelegramStart
use alarm4pi.Pushover.{Pushover, pushover_init}
use alarm4pi.Pushover.Status.{
  status_code, string_of, scan_status, skip_to_number, read_int, read_digits,
}
use alarm4pi.Pushover.Start as PushoverStart
use alarm4pi.Owncloud.{Owncloud, owncloud_init, upload_names}
use alarm4pi.Owncloud.Start as OwncloudStart
use alarm4pi.Owncloud.Buffers.{IsUploadable, upload_names-IsUploadable}
use alarm4pi.Tests.Network.{network, network_own}

abbrev an_env : ExecEnv
an_env = record {
  self_exe = target (codes "/opt/alarm/a");
  dirname = λ t. codes "/opt/alarm";
  errno = 0;
}

abbrev chat_variable : Variable
chat_variable = (codes "chat_id=", 160)

abbrev token_variables : List Variable
token_variables = (codes "api_token=", 160) ∷ []

abbrev a_chat : Bytes
a_chat = codes "-1001"

abbrev a_token : Bytes
a_token = codes "12:ab"

load_config-Ends_example :
    Ends telegram_variables (load_config false telegram_variables (codes "unknown=3"))
load_config-Ends_example = load_config-Ends false telegram_variables (codes "unknown=3") refl refl

-- The token is assigned twice.
abbrev three_lines : List Assignment
three_lines = (1, codes "x") ∷ (0, a_chat) ∷ (1, a_token) ∷ []

load_config-assigned_example :
    load_config false telegram_variables (file telegram_variables three_lines)
    ≡ some (0, assigned (cleared telegram_variables) three_lines)
load_config-assigned_example =
    load_config-assigned chat_variable token_variables three_lines refl refl

abbrev answer : List Bytes
answer = (b'{' ∷ b'"' ∷ (codes "status" ++ (b'"' ∷ []))) ∷ codes ":1}" ∷ []

received-Receives_example :
    Receives
      (network [] answer)
      []
      (joined answer)
      (received (network [] answer) answer no_response 4)
received-Receives_example =
    received-Receives (network [] answer) answer [] no_response 4 (refl, inl (refl, refl))

abbrev telegram_conf : Bytes
telegram_conf = codes "chat_id=-1001 api_token=12:ab"

abbrev telegram_web : Web
telegram_web = network telegram_conf []

abbrev telegram_off : Telegram telegram_web
telegram_off = record { chat_id = []; api_token = []; telegram_initialized = 0; world = 2 }

telegram_init-Returns_example :
    TelegramStart.Returns telegram_web
      (network_own telegram_conf [])
      2
      13
      (telegram_init telegram_web an_env (codes "telegram.conf") telegram_off)
telegram_init-Returns_example =
    TelegramStart.telegram_init-Returns telegram_web (network_own telegram_conf []) an_env
      (codes "telegram.conf") telegram_off refl (λ fd q. refl)

abbrev pushover_conf : Bytes
pushover_conf = codes "token=ab user=cd"

abbrev pushover_web : Web
pushover_web = network pushover_conf answer

abbrev pushover_off : Pushover pushover_web
pushover_off = record {
  token_id = [];
  user_id = [];
  server_url = [];
  pushover_initialized = 0;
  world = 2;
}

pushover_init-Returns_example :
    PushoverStart.Returns pushover_web
      (network_own pushover_conf answer)
      2
      13
      (pushover_init pushover_web an_env (codes "pushover.conf") pushover_off)
pushover_init-Returns_example =
    PushoverStart.pushover_init-Returns pushover_web (network_own pushover_conf answer) an_env
      (codes "pushover.conf") pushover_off refl (λ fd q. refl)

abbrev pushover_on : Pushover pushover_web
pushover_on = record pushover_off {
  token_id = codes "ab";
  user_id = codes "cd";
  server_url = codes "https://api.pushover.net/1/messages.json";
  pushover_initialized = 1;
}

is_answered : status_code (joined answer ++ (0 ∷ [])) ≡ 0
unfolding status_code string_of scan_status skip_to_number read_int read_digits strstr starts_with
is_answered = refl

abbrev owncloud_conf : Bytes
owncloud_conf = codes "server_url=https://cloud/dav user=me password=pw"

abbrev owncloud_web : Web
owncloud_web = network owncloud_conf []

abbrev owncloud_off : Owncloud owncloud_web
owncloud_off = record {
  full_capture_path = [];
  remote_destin_dir = [];
  server_url = [];
  user_id = [];
  user_password = [];
  owncloud_initialized = 0;
  world = 2;
}

owncloud_init-Returns_example :
    OwncloudStart.Returns owncloud_web (network_own owncloud_conf []) 2 13 (
      owncloud_init owncloud_web an_env
        (codes "owncloud.conf")
        (codes "/home/captures")
        (codes "captures")
        owncloud_off)
owncloud_init-Returns_example =
    OwncloudStart.owncloud_init-Returns owncloud_web (network_own owncloud_conf []) an_env
      (codes "owncloud.conf") (codes "/home/captures") (codes "captures") owncloud_off refl
      (omega arith, omega arith, omega arith, omega arith, omega arith) (λ fd q. refl)

abbrev owncloud_on : Owncloud owncloud_web
owncloud_on = record owncloud_off {
  full_capture_path = codes "/home/captures/";
  remote_destin_dir = codes "captures/";
  server_url = codes "https://cloud/dav/";
  user_id = codes "me";
  user_password = codes "pw";
  owncloud_initialized = 1;
}

upload_names-IsUploadable_example :
    (((upload_names owncloud_web owncloud_on (codes "a.jpg")).0 == 0) ≡ false)
    ⊎ (owncloud_on.owncloud_initialized ≢ 0)
      × (0 < length (codes "a.jpg"))
      × IsUploadable owncloud_on
          (codes "a.jpg")
          (upload_names owncloud_web owncloud_on (codes "a.jpg")).1
upload_names-IsUploadable_example =
    upload_names-IsUploadable owncloud_web owncloud_on (codes "a.jpg")
