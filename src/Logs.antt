-- ===== src/Logs.antt =====
-- src/mth/core/log_ring.hpp and log_ring.cpp: `LogRing`, the last lines of the log in a ring. The
-- mutex makes each operation one step. A capacity of 0 is raised to 1 by the constructor.
pub mod Holds
pub mod Newest
use mth_apclient.Base.{
  ℕ, zero, suc, ◌+◌, ◌%◌, List, [], ◌∷◌, ◌++◌, ltb, ◌==◌, if◌then◌else◌, get_or, set, length, Bytes,
}

pub record LogRing : Type 0 where
  pub lines : List Bytes
  pub capacity : ℕ
  pub head : ℕ

unfoldable pub new_ring : ℕ → LogRing
new_ring capacity = record {
  lines = [];
  capacity = if capacity == 0 then 1 else capacity;
  head = 0;
}

unfoldable pub push : Bytes → LogRing → LogRing
push line r =
    if ltb (length r.lines) r.capacity
    then record r { lines = r.lines ++ line ∷ [] }
    else record r { lines = set r.lines r.head line; head = suc r.head % length r.lines }

unfoldable pub clear : LogRing → LogRing
clear r = record r { lines = []; head = 0 }

-- The lines of the ring from the `i`-th after the oldest on, `n` of them.
unfoldable pub read_from : LogRing → ℕ → ℕ → List Bytes
read_from r i zero = []
read_from r i (suc n) = get_or r.lines ((r.head + i) % length r.lines) [] ∷ read_from r (suc i) n

unfoldable pub snapshot : LogRing → List Bytes
unfolding read_from
snapshot r = read_from r 0 (length r.lines)

abbrev pub size : LogRing → ℕ
size r = length r.lines
