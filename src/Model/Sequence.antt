-- ===== src/Model/Sequence.antt =====
-- The operations of `List`, of include/model.h and src/model.cpp. A result is `none` if a call follows a
-- null pointer or takes an item of an empty list. A model that is put into a list is none of its items.
use rellaf.Prelude.{ℕ, zero, suc, leb, if◌then◌else◌, Bool, true, false, Option, none, some, ◌>>=◌}
use rellaf.Cast.{Kind, Val, Reals}
use rellaf.Model.{Model, Items, no_items, null, item, size}
use rellaf.Model.Copy.{cloned}

unfoldable pub empty : Items → Bool
empty no_items = true
empty _ = false

unfoldable pub clear : Items → Items
clear xs = no_items

-- A pointer in front of the items.
abbrev pub cons : Option Model → Items → Items
cons none xs = null xs
cons (some m) xs = item m xs

-- A pointer behind them.
unfoldable pub snoc : Items → Option Model → Items
snoc no_items p = cons p no_items
snoc (null xs) p = null (snoc xs p)
snoc (item m xs) p = item m (snoc xs p)

unfoldable pub front : Items → Option (Option Model)
front no_items = none
front (null xs) = some none
front (item m xs) = some (some m)

-- The last pointer, behind a first one.
unfoldable pub last_of : Option Model → Items → Option Model
last_of p no_items = p
last_of p (null xs) = last_of none xs
last_of p (item m xs) = last_of (some m) xs

unfoldable pub back : Items → Option (Option Model)
unfolding last_of
back no_items = none
back (null xs) = some (last_of none xs)
back (item m xs) = some (last_of (some m) xs)

unfoldable pub pop_front : Items → Option Items
pop_front no_items = none
pop_front (null xs) = some xs
pop_front (item m xs) = some xs

-- All but the last pointer, with a first one.
unfoldable pub all_but : Option Model → Items → Items
all_but p no_items = no_items
all_but p (null xs) = cons p (all_but none xs)
all_but p (item m xs) = cons p (all_but (some m) xs)

unfoldable pub pop_back : Items → Option Items
unfolding all_but
pop_back no_items = none
pop_back (null xs) = some (all_but none xs)
pop_back (item m xs) = some (all_but (some m) xs)

-- `_items[idx] = ...` in the range.
unfoldable pub put_item : ℕ → Option Model → Items → Items
put_item idx p no_items = no_items
put_item zero p (null xs) = cons p xs
put_item zero p (item m xs) = cons p xs
put_item (suc idx) p (null xs) = null (put_item idx p xs)
put_item (suc idx) p (item m xs) = item m (put_item idx p xs)

module _ (r : Reals) (unset : Kind → Val) where
  unfoldable pub push_front : Option Model → Items → Option Items
  unfolding cloned
  push_front model xs = cloned r unset model >>= λ p. some (cons p xs)

  unfoldable pub push_back : Option Model → Items → Option Items
  unfolding cloned snoc
  push_back model xs = cloned r unset model >>= λ p. some (snoc xs p)

  -- Out of the range nothing is cloned.
  unfoldable pub set : ℕ → Option Model → Items → Option Items
  unfolding cloned put_item size
  set idx model xs =
      if leb (size xs) idx
      then some xs
      else (cloned r unset model >>= λ p. some (put_item idx p xs))
