-- ===== src/Limits/Replies.antt =====
-- `fail_closed` and `parse_integer_sequence` of backend/app/limits/redis.py, and the replies that
-- they read.
use zangpu.Base.{
  ℕ, ℤ, pos, Bool, Option, none, some, List, [], ◌∷◌, Result, ok, err, ◌>>=◌, ◌==◌, ◌==ℤ◌,
  if◌then◌else◌, length, not, ◌||◌,
}

pub data ControlPlaneUnavailable : Type 0 where
  control_plane_unavailable : ControlPlaneUnavailable

abbrev pub Reply : Type 0 → Type 0
Reply A = Result ControlPlaneUnavailable A

abbrev pub refuse : {A : Type 0} → Reply A
refuse = err control_plane_unavailable

-- What awaiting a Redis call gives: a RedisError, a sequence of items each of which `int` reads or
-- not, a value that `int` reads as a number, `True`, `False` or `None`, or another object.
pub data RedisReply : Type 0 where
  redis_error : RedisReply
  sequence : List (Option ℤ) → RedisReply
  integer : ℤ → RedisReply
  boolean : Bool → RedisReply
  nothing : RedisReply
  other : RedisReply

abbrev pub items_of : List ℤ → List (Option ℤ)
items_of [] = []
items_of (n ∷ ns) = some n ∷ items_of ns

abbrev pub integers : List ℤ → RedisReply
integers ns = sequence (items_of ns)

unfoldable pub fail_closed : RedisReply → Reply RedisReply
fail_closed redis_error = refuse
fail_closed reply = ok reply

-- `tuple(int(item) for item in value)`
unfoldable pub all_integers : List (Option ℤ) → Reply (List ℤ)
all_integers [] = ok []
all_integers (none ∷ items) = refuse
all_integers (some n ∷ items) = do rest ← all_integers items; ok (n ∷ rest)

unfoldable pub parse_integer_sequence : RedisReply → ℕ → Reply (List ℤ)
unfolding all_integers
parse_integer_sequence (sequence items) n = if length items == n then all_integers items else refuse
parse_integer_sequence _ n = refuse

-- `fail_closed` and then `parse_integer_sequence`, as every script call does.
unfoldable pub eval_integers : RedisReply → ℕ → Reply (List ℤ)
eval_integers reply n = do raw ← fail_closed reply; parse_integer_sequence raw n

-- `int(raw_result)` of a release or a cancellation, which must be 0 or 1. Python reads `True` and
-- `False` as 1 and 0 there.
flag_of : ℤ → Reply Bool
flag_of n = if not (n ==ℤ pos 0 || n ==ℤ pos 1) then refuse else ok (n ==ℤ pos 1)

removed_of : RedisReply → Reply Bool
unfolding flag_of
removed_of (integer n) = flag_of n
removed_of (boolean b) = ok b
removed_of _ = refuse

unfoldable pub eval_removed : RedisReply → Reply Bool
unfolding removed_of
eval_removed reply = do raw ← fail_closed reply; removed_of raw
