-- ===== src/HashRing/Fnv.antt =====
-- hash/fnv's 32-bit FNV-1a, and strconv.Itoa, as hashKey and `place` of
-- internal/hashring/hashring.go use them.
use Prim.Native.Nat.{bit_xor}
use distributed_kv_data_stor.Prelude.{
  ℕ, zero, suc, ◌+◌, ◌*◌, ◌/◌, ◌%◌, ◌^◌, ◌<◌, Str, [], ◌∷◌, ◌++◌, ltb, if◌then◌else◌, arith,
}

fnv_loop : Str → ℕ → ℕ
fnv_loop [] h = h
fnv_loop (c ∷ s) h = fnv_loop s (bit_xor h c * 16777619 % 2 ^ 32)

unfoldable pub hash_key : Str → ℕ
unfolding fnv_loop
hash_key key = fnv_loop key 2166136261

-- The decimal digits of `n`, with fuel; `n + 1` is enough, since the rest shrinks in each round.
unfoldable pub itoa_fuel : ℕ → ℕ → Str
itoa_fuel zero n = []
itoa_fuel (suc f) n =
    let front = itoa_fuel f (n / 10) in
    if ltb n 10 then (b'0' + n) ∷ [] else front ++ (b'0' + n % 10) ∷ []

unfoldable pub itoa : ℕ → Str
unfolding itoa_fuel
itoa n = itoa_fuel (n + 1) n

-- A hash fits in a uint32.
fnv_loop-lt : (s : Str) (h : ℕ) → h < 2 ^ 32 → fnv_loop s h < 2 ^ 32
unfolding fnv_loop
fnv_loop-lt [] h lt = lt
fnv_loop-lt (c ∷ s) h lt = fnv_loop-lt s (bit_xor h c * 16777619 % 2 ^ 32) (omega arith)

pub hash_key-lt : (key : Str) → hash_key key < 2 ^ 32
unfolding hash_key
hash_key-lt key = fnv_loop-lt key 2166136261 (omega arith)
