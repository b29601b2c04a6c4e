-- ===== src/Tribbler/Posting.antt =====
-- tribserver_impl.go: a posted tribble is read back.
use projects.Common.{ℕ, ◌≡◌, String, false, none, some, List}
use projects.Storage.Server.{contains}
use projects.Tribbler.Store.{KeyValue, Laws}
use projects.Tribbler.Server.{Tribble, Runtime, user_key, list_key, tribble_key}
use projects.Tribbler.Reading.{Runs, Stored}

module _ {S : Type 0} (kv : KeyValue S) (w : Laws kv) (rt : Runtime) (runs : Runs rt) (s : S)
    (u v contents : String) (posted id : ℕ) (exists : w.value s (user_key u) ≡ some v)
    (fresh : w.value s (tribble_key u (rt.print id)) ≡ none)
    (unlisted : contains (rt.print id) (w.items s (list_key u)) ≡ false)
    (stored : Stored kv w rt runs s u) where
  abbrev new : Tribble
  new = record { user_id = u; posted = posted; contents = contents }

  abbrev key : String
  key = tribble_key u (rt.print id)

  abbrev s1 : S
  s1 = (kv.get s (user_key u)).0

  abbrev s2 : S
  s2 = (kv.put s1 key (rt.marshal new)).0

  abbrev s3 : S
  s3 = (kv.append_to_list s2 (list_key u) (rt.print id)).0
