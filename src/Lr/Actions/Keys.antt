-- ===== src/Lr/Actions/Keys.antt =====
-- The order by which actions are sorted.
use Prim.Native.Nat.{compare, Ordering}
use dparser.Prelude.{ℕ, ◌≡◌, ◌≢◌, arith}
use dparser.Libc.{IsOrder}
use dparser.Lr.Actions.{actioncmp, action_key}

compare_antisym : (a b : ℕ) → compare a b ≡ Ordering.gt → compare b a ≢ Ordering.gt
compare_antisym a b h e = ground arith

compare_trans :
    (a b c : ℕ) → compare a b ≢ Ordering.gt → compare b c ≢ Ordering.gt → compare a c ≢ Ordering.gt
compare_trans a b c h k e = ground arith

pub actioncmp-IsOrder : IsOrder actioncmp
unfolding actioncmp
actioncmp-IsOrder = record {
  total = λ a b. compare_antisym (action_key a) (action_key b);
  trans = λ a b c. compare_trans (action_key a) (action_key b) (action_key c);
}
