-- ===== src/Pushover/Confirm.antt =====
-- When `send_pushover_notification` of src/pushover2.c returns 0.
use alarm4pi.Prelude.{◌++◌, [], if◌then◌else◌, take, ◌≡◌, ℤ, pos, Bool, true, Option, some}
use alarm4pi.CString.{Bytes, codes}
use alarm4pi.Web.{Web}
use alarm4pi.Web.Response.{Response, perform}
use alarm4pi.Pushover.Status.{status_code}
use alarm4pi.Pushover.{Pushover, is_max_priority}

-- The transfer succeeded with the HTTP code 200 and a body of which the status is 1.
abbrev pub IsAccepted : Bool → Option ℤ → Option Bytes → Type 0
IsAccepted ok info block =
    (ok ≡ true) × (info ≡ some (pos 200)) × (b : Bytes) × (block ≡ some b) × (status_code b ≡ 0)

-- The fields of a post, of which only the first 4095 bytes fit in the buffer.
abbrev pub fields_of : Bytes → Bytes → Bytes → Bytes → Bytes → Bytes
fields_of token user msg priority more = take 4095 (
    codes "token="
    ++ (token
        ++ (codes "&user="
            ++ (user
                ++ (codes "&message=" ++ (msg ++ (codes "&priority=" ++ (priority ++ more))))))))

-- What the priority 2 asks for besides.
abbrev pub retries : Bytes → Bytes
retries msg_priority = if is_max_priority msg_priority then codes "&retry=31&expire=120" else []

module _ (web : Web) where
  open web.host use {World, Curl}

  -- The server accepted the post of these fields.
  abbrev pub IsPosted : Pushover web → Curl → Bytes → World → Type 0
  IsPosted p curl fields w =
      IsAccepted (perform web curl p.server_url fields w).0
        (web.response_info curl (perform web curl p.server_url fields w).1.1)
        (perform web curl p.server_url fields w).1.0.block

  -- A handle escaped the message, the token, the user id and the priority, one after the other, and
  -- the server accepted the post of the fields with these four texts in their places.
  abbrev pub IsSent : Pushover web → Bytes → Bytes → Type 0
  IsSent p msg_str msg_priority =
      (curl : Curl) × (w : World) × (let (msg, w1) = web.escape curl msg_str w in
        let (token, w2) = web.escape curl p.token_id w1 in
        let (user, w3) = web.escape curl p.user_id w2 in
        let (priority, w4) = web.escape curl msg_priority w3 in
        (m t u q : Bytes) × (msg ≡ some m)
        × (token ≡ some t)
        × (user ≡ some u)
        × (priority ≡ some q)
        × IsPosted p curl (fields_of t u m q (retries msg_priority)) w4)
