-- ===== src/Settings/Pasted.antt =====
-- Pasting the lines of `server register-device` into the form.
use cyberstalk_me.Base.{◌≡◌, refl, ap, ◌∙◌, some, List, [], ◌∷◌, Text, All}
use cyberstalk_me.Api.{Draft}
use cyberstalk_me.Snippet.{
  ParsedConnection, Key, server_url_key, device_id_key, token_key, interval_key, nothing, set_key,
}
use cyberstalk_me.Snippet.Printed.{IsPlain, printed, set_all, parse-printed}
use cyberstalk_me.Settings.{
  TextKey, server_url, device_id, token, interval, set_text, merge, keys_of, Form, handle_paste,
}

-- The field of a key, and typing values into fields one after another.
abbrev pub field_of : Key → TextKey
field_of server_url_key = server_url
field_of device_id_key = device_id
field_of token_key = token
field_of interval_key = interval

abbrev pub typed : List (Key × Text) → Draft → Draft
typed [] d = d
typed ((key, v) ∷ more) d = typed more (set_text (field_of key) v d)

merge-set_key :
    (d : Draft) (key : Key) (v : Text) (found : ParsedConnection)
    → merge d (set_key key v found) ≡ set_text (field_of key) v (merge d found)
unfolding merge set_key set_text
merge-set_key d server_url_key v found = refl
merge-set_key d device_id_key v found = refl
merge-set_key d token_key v found = refl
merge-set_key d interval_key v found = refl

merge-set_all :
    (kvs : List (Key × Text)) (d : Draft) (found : ParsedConnection)
    → merge d (set_all kvs found) ≡ typed kvs (merge d found)
merge-set_all [] d found = refl
merge-set_all ((key, v) ∷ more) d found =
    merge-set_all more d (set_key key v found) ∙ ap (typed more) (merge-set_key d key v found)

merge-nothing : (d : Draft) → merge d nothing ≡ d
unfolding merge nothing
merge-nothing d = refl

-- Pasting printed lines with plain values, one key to a line, edits the draft as typing each value
-- into its field does, in the order of the lines, and says which keys it found.
pub handle_paste-printed :
    (key : Key) (v : Text) (more : List (Key × Text)) (form : Form) (d : Draft)
    → All (λ kv. IsPlain kv.1) ((key, v) ∷ more)
    → (change : Draft → Draft) × (handle_paste (printed ((key, v) ∷ more)) form ≡ (
      some change,
      record form { pasted = some (keys_of (set_all ((key, v) ∷ more) nothing)) },
    ))
      × (change d ≡ typed ((key, v) ∷ more) d)
unfolding handle_paste
handle_paste-printed key v more form d h =
    let all_keys = set_all ((key, v) ∷ more) nothing in
    (
      λ e. merge e all_keys,
      rw (handle_paste, parse-printed key v more h) refl,
      merge-set_all ((key, v) ∷ more) d nothing ∙ ap (typed ((key, v) ∷ more)) (merge-nothing d),
    )
