-- ===== src/Tribbler/Following.antt =====
-- tribserver_impl.go: what a subscriber reads.
use mathlib.Core.List.{Permᴰ}
use mathlib.Core.List.Permᴰ
use projects.Common.{String, List, [], ◌∷◌, ◌++◌}
use projects.Tribbler.Store.{KeyValue, Laws}
use projects.Tribbler.Server.{Tribble, Runtime}
use projects.Tribbler.Reading.{Runs, tribbles_of}

module _ {S : Type 0} (kv : KeyValue S) (w : Laws kv) (rt : Runtime) (runs : Runs rt) where
  -- The tribbles of several users.
  unfoldable pub all_tribbles : S → List String → List Tribble
  all_tribbles s [] = []
  all_tribbles s (u ∷ us) = tribbles_of kv w rt runs s u ++ all_tribbles s us
