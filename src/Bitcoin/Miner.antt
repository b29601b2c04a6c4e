-- ===== src/Bitcoin/Miner.antt =====
-- p1/src/github.com/cmu440/bitcoin/miner/miner.go and hash.go. A loop that has not ended when the
-- fuel is used up gives `none`.
use projects.Common.{
  ℕ, zero, suc, ◌+◌, ◌-◌, ◌^◌, String, Option, none, some, ltb, leb, if◌then◌else◌,
}
use projects.Bitcoin.Server.{Message, uint64, new_result}

-- The nonce's digits after the text, then their digest, then its first eight bytes as a number.
unfoldable pub hash :
    {Digest : Type 0} → (String → ℕ → String) → (String → Digest) → (Digest → ℕ) → String → ℕ → ℕ
hash sprintf sum big_endian msg nonce = big_endian (sum (sprintf msg nonce))

-- The smallest hash and its nonce after one more nonce.
unfoldable pub better : (ℕ → ℕ) → ℕ → ℕ × ℕ → ℕ × ℕ
better hash i best = if ltb (hash i) best.0 then (hash i, i) else best

-- The loop from the nonce `i` on.
unfoldable pub min_hash_from : (ℕ → ℕ) → ℕ → ℕ → ℕ × ℕ → ℕ → Option (ℕ × ℕ)
unfolding better
min_hash_from hash upper i best zero = none
min_hash_from hash upper i best (suc fuel) =
    let rest = min_hash_from hash upper (uint64 (i + 1)) (better hash i best) fuel in
    if leb i upper then rest else some best

unfoldable pub calculate_min_hash : (String → ℕ → ℕ) → String → ℕ → ℕ → ℕ → Option (ℕ × ℕ)
unfolding min_hash_from
calculate_min_hash hash text lower upper fuel =
    min_hash_from (hash text) upper lower (2 ^ 64 - 1, 0) fuel

-- What the miner sends back for a request.
unfoldable pub answer : Option (ℕ × ℕ) → Option Message
unfolding new_result
answer none = none
answer (some (hash, nonce)) = some (new_result hash nonce)

unfoldable pub mine : (String → ℕ → ℕ) → Message → ℕ → Option Message
unfolding calculate_min_hash answer
mine hash req fuel = answer (calculate_min_hash hash req.data_text req.lower req.upper fuel)
