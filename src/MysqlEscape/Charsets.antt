-- ===== src/MysqlEscape/Charsets.antt =====
-- What the escaping needs of a character set, and that the two of the class have it.
use Prim.Native.Nat.{bit_xor}
use rellaf.Prelude.{
  ℕ, zero, suc, ◌≤◌, ◌<◌, [], ◌∷◌, ◌++◌, true, Bytes, ltb, All, length, take, ◌≡◌, ◌≢◌, arith,
}
use rellaf.MysqlEscape.{
  Charset, ismbchar_gbk, mbcharlen_gbk, ismbchar_utf8, mbcharlen_utf8, gbk, utf8,
}

pub record IsCharset (cs : Charset) : Type 0 where
  -- a character lies inside of the text, and its bytes alone make it one
  pub inside : (c m : ℕ) (s : Bytes) → cs.ismbchar (c ∷ s) ≡ suc m → m ≤ length s
  pub stable :
      (c m : ℕ) (s t : Bytes)
      → cs.ismbchar (c ∷ s) ≡ suc m
      → cs.ismbchar (c ∷ (take m s ++ t)) ≡ suc m
  pub no_nul :
      (c m : ℕ) (s : Bytes) → cs.ismbchar (c ∷ s) ≡ suc m → (c ≢ 0) × All (λ d. d ≢ 0) (take m s)
  -- a character begins with a byte that looks like it, and no ASCII byte does
  pub head : (c m : ℕ) (s : Bytes) → cs.ismbchar (c ∷ s) ≡ suc m → 1 < cs.mbcharlen c
  pub high : (c : ℕ) → 1 < cs.mbcharlen c → 0x80 ≤ c

gbk_inside : (c m : ℕ) (s : Bytes) → ismbchar_gbk (c ∷ s) ≡ suc m → m ≤ length s
unfolding ismbchar_gbk
gbk_inside c m [] h = ground arith
gbk_inside c m (d ∷ s) h = ground arith

gbk_stable :
    (c m : ℕ) (s t : Bytes)
    → ismbchar_gbk (c ∷ s) ≡ suc m
    → ismbchar_gbk (c ∷ (take m s ++ t)) ≡ suc m
unfolding ismbchar_gbk
gbk_stable c m [] t h = ground arith
gbk_stable c zero (d ∷ s) t h = ground arith
gbk_stable c (suc m) (d ∷ s) t h = h

gbk_no_nul :
    (c m : ℕ) (s : Bytes) → ismbchar_gbk (c ∷ s) ≡ suc m → (c ≢ 0) × All (λ d. d ≢ 0) (take m s)
unfolding ismbchar_gbk
gbk_no_nul c m [] h = ground arith
gbk_no_nul c zero (d ∷ s) h = ground arith
gbk_no_nul c (suc zero) (d ∷ s) h = ground arith
gbk_no_nul c (suc (suc m)) (d ∷ s) h = ground arith

gbk_head : (c m : ℕ) (s : Bytes) → ismbchar_gbk (c ∷ s) ≡ suc m → 1 < mbcharlen_gbk c
unfolding ismbchar_gbk mbcharlen_gbk
gbk_head c m [] h = ground arith
gbk_head c m (d ∷ s) h = ground arith

gbk_high : (c : ℕ) → 1 < mbcharlen_gbk c → 0x80 ≤ c
unfolding mbcharlen_gbk
gbk_high c h = ground arith

pub gbk-IsCharset : IsCharset gbk
gbk-IsCharset = record {
  inside = gbk_inside;
  stable = gbk_stable;
  no_nul = gbk_no_nul;
  head = gbk_head;
  high = gbk_high;
}

utf8_inside : (c m : ℕ) (s : Bytes) → ismbchar_utf8 (c ∷ s) ≡ suc m → m ≤ length s
unfolding ismbchar_utf8
utf8_inside c m [] h = ground arith
utf8_inside c m (d ∷ []) h = ground arith
utf8_inside c m (d ∷ e ∷ s) h = ground arith

utf8_stable :
    (c m : ℕ) (s t : Bytes)
    → ismbchar_utf8 (c ∷ s) ≡ suc m
    → ismbchar_utf8 (c ∷ (take m s ++ t)) ≡ suc m
unfolding ismbchar_utf8
utf8_stable c m [] t h = ground arith
utf8_stable c zero (d ∷ []) t h = ground arith
utf8_stable c zero (d ∷ e ∷ s) t h = ground arith
utf8_stable c (suc zero) (d ∷ []) [] h = h
utf8_stable c (suc zero) (d ∷ []) (f ∷ t) h = ground arith
utf8_stable c (suc zero) (d ∷ e ∷ s) [] h = ground arith
utf8_stable c (suc zero) (d ∷ e ∷ s) (f ∷ t) h = ground arith
utf8_stable c (suc (suc m)) (d ∷ []) t h = ground arith
utf8_stable c (suc (suc zero)) (d ∷ e ∷ s) t h = ground arith
utf8_stable c (suc (suc (suc m))) (d ∷ e ∷ s) t h = ground arith

nul_is_no_continuation : (c : ℕ) → ltb (bit_xor c 0x80) 0x40 ≡ true → c ≢ 0
nul_is_no_continuation c h e = cc (rw e at h)

utf8_no_nul :
    (c m : ℕ) (s : Bytes) → ismbchar_utf8 (c ∷ s) ≡ suc m → (c ≢ 0) × All (λ d. d ≢ 0) (take m s)
unfolding ismbchar_utf8
utf8_no_nul c m [] h = ground arith
utf8_no_nul c zero (d ∷ []) h = ground arith
utf8_no_nul c zero (d ∷ e ∷ s) h = ground arith
utf8_no_nul c (suc zero) (d ∷ []) h = ground (arith, nul_is_no_continuation d)
utf8_no_nul c (suc zero) (d ∷ e ∷ s) h = ground (arith, nul_is_no_continuation d)
utf8_no_nul c (suc (suc m)) (d ∷ []) h = ground arith
utf8_no_nul c (suc (suc zero)) (d ∷ e ∷ s) h =
    ground (arith, nul_is_no_continuation d, nul_is_no_continuation e)
utf8_no_nul c (suc (suc (suc m))) (d ∷ e ∷ s) h = ground arith

utf8_head : (c m : ℕ) (s : Bytes) → ismbchar_utf8 (c ∷ s) ≡ suc m → 1 < mbcharlen_utf8 c
unfolding ismbchar_utf8 mbcharlen_utf8
utf8_head c m [] h = ground arith
utf8_head c m (d ∷ []) h = ground arith
utf8_head c m (d ∷ e ∷ s) h = ground arith

utf8_high : (c : ℕ) → 1 < mbcharlen_utf8 c → 0x80 ≤ c
unfolding mbcharlen_utf8
utf8_high c h = ground arith

pub utf8-IsCharset : IsCharset utf8
utf8-IsCharset = record {
  inside = utf8_inside;
  stable = utf8_stable;
  no_nul = utf8_no_nul;
  head = utf8_head;
  high = utf8_high;
}
