-- ===== src/Competition/Chunks.antt =====
-- packages/core/src/competition.ts, the indexer's budget: request sizes, groups of items that fit a
-- request, and how often a history point is kept.
pub mod Laws
use koul.Base.{
  ℕ, zero, suc, ◌+◌, ◌-◌, ◌*◌, ◌/◌, max, Bool, true, false, not, ◌&&◌, List, [], ◌∷◌, ◌++◌, Text,
  leb, ltb, is_nil, if◌then◌else◌,
}

abbrev pub history_pushes_per_day : ℕ
history_pushes_per_day = 7200

abbrev pub hour_ms : ℕ
hour_ms = 3_600_000

-- `Math.ceil(a / b)` for b > 0
abbrev pub ceil_div : ℕ → ℕ → ℕ
ceil_div a b = (a + (b - 1)) / b

unfoldable pub history_every_ms : ℕ → ℕ
history_every_ms entries = max hour_ms (ceil_div (entries * 24 * hour_ms) history_pushes_per_day)

abbrev pub request_max_bytes : ℕ
request_max_bytes = 400_000

-- The bytes of a code point in UTF-8, and of a text.
abbrev pub utf8_of : ℕ → ℕ
utf8_of c = if ltb c 0x80 then 1 else if ltb c 0x800 then 2 else if ltb c 0x10000 then 3 else 4

unfoldable pub utf8 : Text → ℕ
utf8 [] = 0
utf8 (c ∷ s) = utf8_of c + utf8 s

unfoldable pub command_bytes_from : ℕ → List Text → ℕ
unfolding utf8
command_bytes_from n [] = n
command_bytes_from n (p ∷ ps) = command_bytes_from (n + utf8 p + 3) ps

unfoldable pub command_bytes : List Text → ℕ
unfolding command_bytes_from
command_bytes parts = command_bytes_from 2 parts

module _ {A : Type 0} where
  abbrev pub with_last : List (List A) → List A → List (List A)
  with_last out [] = out
  with_last out (x ∷ xs) = out ++ (x ∷ xs) ∷ []

  unfoldable pub chunk_loop : (A → ℕ) → ℕ → List (List A) → List A → ℕ → List A → List (List A)
  chunk_loop bytes limit out group size [] = with_last out group
  chunk_loop bytes limit out group size (item ∷ items) =
      let n = bytes item in
      let closed = chunk_loop bytes limit (out ++ group ∷ []) (item ∷ []) n items in
      let grown = chunk_loop bytes limit out (group ++ item ∷ []) (size + n) items in
      if not (is_nil group) && ltb limit (size + n) then closed else grown

  unfoldable pub chunk_by_size : List A → (A → ℕ) → ℕ → List (List A)
  unfolding chunk_loop
  chunk_by_size items bytes limit = chunk_loop bytes limit [] [] 0 items

abbrev pub pair_bytes : Text × Text → ℕ
pair_bytes (k, v) = utf8 k + utf8 v + 6

unfoldable pub chunk_pairs : List (Text × Text) → ℕ → List (List (Text × Text))
unfolding chunk_by_size
chunk_pairs pairs limit = chunk_by_size pairs pair_bytes limit
