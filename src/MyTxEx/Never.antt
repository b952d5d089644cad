-- ===== src/MyTxEx/Never.antt =====
-- `_is_begin` is never set.
use rellaf.Prelude.{
  ℕ, List, [], ◌∷◌, Bool, false, Option, none, length, replicate, ◌≡◌, refl, sym, ap, ◌∙◌, inl, inr,
  Bool-cases,
}
use rellaf.Prelude.Ints.{ℤ}
use rellaf.MysqlWorker.{Mysql, Call, done, hangs, crashes, ◌>>=◌, Memory}
use rellaf.MysqlPool.{Pool, begin}
use rellaf.MyTxEx.{MyTxEx, Ended, new_tx, set_done, rollback_tx, commit_tx}

-- A call of a member function.
pub data Use : Type 0 where
  commits rolls_back : Memory → Use
  sets_done : ℤ → Use

module _ {ℓ κ} {C : Type ℓ} {R : Type κ} (api : Mysql C R) where
  abbrev pub use_tx : Use → MyTxEx → Pool C → Call (Ended × Pool C)
  use_tx (commits memory) e pool = commit_tx api memory e pool
  use_tx (rolls_back memory) e pool = rollback_tx api memory e pool
  use_tx (sets_done ret) e pool =
      done (record { ret = e.init; done_ret = none; object = set_done ret e }, pool)

  -- The calls one after another, with the result of each and of the function that `set_done` set.
  abbrev pub use_all : List Use → MyTxEx → Pool C → Call (List (Bool × Option ℤ) × Pool C)
  use_all [] e pool = done ([], pool)
  use_all (u ∷ us) e pool = use_tx u e pool >>= λ (r, pool').
      use_all us r.object pool' >>= λ (rs, pool''). done ((r.ret, r.done_ret) ∷ rs, pool'')

  same_object : (u : Use) (e : MyTxEx) → MyTxEx
  same_object (commits memory) e = e
  same_object (rolls_back memory) e = e
  same_object (sets_done ret) e = set_done ret e

  use_tx-same :
      (u : Use) (e : MyTxEx) (pool : Pool C)
      → e.is_begin ≡ false
      → use_tx u e pool
        ≡ done (record { ret = e.init; done_ret = none; object = same_object u e }, pool)
  unfolding commit_tx rollback_tx same_object
  use_tx-same (commits memory) e pool h = elim (Bool-cases e.init) [
    | inl i ↦ rw (i, h, commit_tx) refl
    | inr i ↦ rw (i, commit_tx) refl
  ]
  use_tx-same (rolls_back memory) e pool h = elim (Bool-cases e.init) [
    | inl i ↦ rw (i, h, rollback_tx) refl
    | inr i ↦ rw (i, rollback_tx) refl
  ]
  use_tx-same (sets_done ret) e pool h = refl

  same_object-flags :
      (u : Use) (e : MyTxEx)
      → ((same_object u e).is_begin ≡ e.is_begin) × ((same_object u e).init ≡ e.init)
  unfolding same_object
  same_object-flags (commits memory) e = (refl, refl)
  same_object-flags (rolls_back memory) e = (refl, refl)
  same_object-flags (sets_done ret) e = (refl, refl)

  use_all-same :
      (us : List Use) (e : MyTxEx) (pool : Pool C)
      → e.is_begin ≡ false
      → use_all us e pool ≡ done (replicate (length us) (e.init, none), pool)
  use_all-same [] e pool h = refl
  use_all-same (u ∷ us) e pool h =
      rw
        (
          use_tx-same u e pool h,
          use_all-same us (same_object u e) pool ((same_object-flags u e).0 ∙ h),
          (same_object-flags u e).1,
        )
        refl

  is_begin_of : Call (MyTxEx × Pool C) → Bool
  is_begin_of (done (e, pool)) = e.is_begin
  is_begin_of hangs = false
  is_begin_of crashes = false

  new_tx-is_begin :
      (call : Call ((Bool × ℕ) × Pool C))
      → is_begin_of (
          call >>= λ ((ok, id), pool').
          done (record { init = ok; is_begin = false; finished = none; tx = id }, pool'))
        ≡ false
  unfolding is_begin_of
  new_tx-is_begin (done ((ok, id), pool)) = refl
  new_tx-is_begin hangs = refl
  new_tx-is_begin crashes = refl

  -- An object that was made leaves the pool, and the transaction in it, as they are, whatever is called
  -- on it: `commit` and `rollback` return whether `begin` succeeded, and the function that was set by
  -- `set_done` is never called.
  pub new_tx_never :
      (made : Bool) (memory : Memory) (us : List Use) (e : MyTxEx) (pool pool' : Pool C)
      → new_tx api made memory pool ≡ done (e, pool')
      → use_all us e pool' ≡ done (replicate (length us) (e.init, none), pool')
  unfolding new_tx is_begin_of
  new_tx_never made memory us e pool pool' h =
      use_all-same us e pool'
        (sym (ap is_begin_of h) ∙ new_tx-is_begin (begin api made memory 0 pool))
