-- ===== src/Owncloud/Buffers.antt =====
-- The buffers of `upload_capture` of src/owncloud.c.
use alarm4pi.Prelude.{
  ◌+◌, ◌≤◌, ◌<◌, ◌≡◌, ◌≢◌, refl, ◌++◌, false, arith, ◌==◌, ltb, Bool-cases, inl, inr, ◌⊎◌, length,
  length-append,
}
use alarm4pi.CString.{Bytes, codes}
use alarm4pi.Proc.Paths.{path_max}
use alarm4pi.Web.{Web}
use alarm4pi.Owncloud.{Owncloud, max_url_len, upload_names}

-- The local path and the URL of a file, within `char[PATH_MAX+1]` and `char[MAX_URL_LEN+2]`.
abbrev pub IsUploadable : {web : Web} → Owncloud web → Bytes → Bytes × Bytes → Type 0
IsUploadable o name (path, url) =
    (path ≡ o.full_capture_path ++ name)
    × (url ≡ o.server_url ++ (o.user_id ++ (codes "/" ++ (o.remote_destin_dir ++ name))))
    × (length path + 1 ≤ path_max + 1)
    × (length url + 1 ≤ max_url_len + 2)

-- Either `upload_capture` refuses before it composes anything, or ownCloud is started, the name is not
-- empty, and the local path and the URL fit in their buffers.
pub upload_names-IsUploadable :
    (web : Web) (o : Owncloud web) (filename_to_upload : Bytes)
    → (((upload_names web o filename_to_upload).0 == 0) ≡ false)
      ⊎ (o.owncloud_initialized ≢ 0)
        × (0 < length filename_to_upload)
        × IsUploadable o filename_to_upload (upload_names web o filename_to_upload).1
unfolding upload_names
upload_names-IsUploadable web o name = elim (Bool-cases (o.owncloud_initialized == 0)) [
  | inl off ↦ rw off (inl refl)
  | inr on ↦ elim (Bool-cases (length name == 0)) [
    | inl empty ↦ rw (on, empty) (inl refl)
    | inr some_name ↦ elim (Bool-cases (ltb path_max (length o.full_capture_path + length name))) [
      | inl long ↦ rw (on, some_name, long) (inl refl)
      | inr fits ↦
          let size =
            length o.server_url + length o.user_id + length o.remote_destin_dir + length name + 1 in
          elim (Bool-cases (ltb (max_url_len + 1) size)) [
            | inl long ↦ rw (on, some_name, fits, long) (inl refl)
            | inr fits1 ↦
                let rest = o.remote_destin_dir ++ name in
                let a : length o.full_capture_path + length name ≤ path_max = ground arith in
                let b : size ≤ max_url_len + 1 = ground arith in
                rw (on, some_name, fits, fits1)
                  (inr (
                    ground arith,
                    ground arith,
                    (
                      refl,
                      refl,
                      omega (arith, a, length-append o.full_capture_path name),
                      omega (
                        arith,
                        b,
                        length-append o.server_url (o.user_id ++ (codes "/" ++ rest)),
                        length-append o.user_id (codes "/" ++ rest),
                        length-append (codes "/") rest,
                        length-append o.remote_destin_dir name,
                      ),
                    ),
                  ))
          ]
    ]
  ]
]
