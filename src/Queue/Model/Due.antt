-- ===== src/Queue/Model/Due.antt =====
-- Which mails a fetch hands out.
use mathlib.Core.List.{Perm}
use oxid_relay.Prelude.{
  ℕ, ◌≤◌, ◌≡◌, ◌⊎◌, true, false, List, [], ◌++◌, length, length-take, drop, take-append-drop,
  take_full, filter, All, All-take, All-filter, arith,
}
use oxid_relay.Message.{Mail, Time}
use oxid_relay.Queue.Order.{
  order_by, order_by-perm, order_by-All, order_by-IsOrdered, take-IsOrdered, take-no_later-drop,
  IsOrdered,
}
use oxid_relay.Queue.Model.{is_due, no_later, due_mails}

-- A batch for delivery out of the mails `ms`, and the due mails that it leaves for later.
pub record IsBatch (limit : ℕ) (now : Time) (ms batch : List Mail) : Type 0 where
  pub bounded : length batch ≤ limit
  pub due : All (λ m. is_due now m ≡ true) batch
  pub ordered : IsOrdered no_later batch
  pub rest : List Mail
  pub complete : Perm (batch ++ rest) (filter (is_due now) ms)
  pub earlier : All (λ m. All (λ n. no_later m n ≡ true) rest) batch
  pub full : (rest ≡ []) ⊎ (length batch ≡ limit)

pub no_later_total : (a b : Mail) → no_later a b ≡ false → no_later b a ≡ true
no_later_total a b h = ground arith

pub no_later_trans :
    (a b c : Mail) → no_later a b ≡ true → no_later b c ≡ true → no_later a c ≡ true
no_later_trans a b c h k = ground arith

-- A fetch hands out at most `limit` mails, all of them pending or failed and due, the earliest due
-- first. Together with some rest they are exactly the due mails of the queue; none of the rest is
-- due earlier than any that is handed out; and there is a rest only where the limit is reached.
pub due_mails-IsBatch :
    (limit : ℕ) (now : Time) (ms : List Mail) → IsBatch limit now ms (due_mails limit now ms)
unfolding due_mails
due_mails-IsBatch limit now ms = record {
  bounded = omega (arith, length-take limit sorted);
  due = All-take _ limit sorted (order_by-All no_later _ due (All-filter (is_due now) ms));
  ordered = take-IsOrdered no_later limit sorted in_order;
  rest = drop limit sorted;
  complete = rw (take-append-drop limit sorted) (order_by-perm no_later due);
  earlier = take-no_later-drop no_later limit sorted in_order;
  full = take_full limit sorted;
}
  where
    due : List Mail
    due = filter (is_due now) ms

    sorted : List Mail
    sorted = order_by no_later due

    in_order : IsOrdered no_later sorted
    in_order = order_by-IsOrdered no_later no_later_total no_later_trans due
