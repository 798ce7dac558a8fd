-- ===== src/Ap/State/Cursor.antt =====
-- The received items of `ApState` (src/mth/core/ap/ap_state.cpp), the server's cursor and the
-- console's index.
use mth_apclient.Base.{
  ◌≢◌, sym, ◌⊎◌, List, [], ◌∷◌, ◌++◌, arith, ℤ, pos, negsuc, ◌≤ℤ◌, ◌<ℤ◌, All, All-append, ◌≡◌, inl,
  inr, refl, ◌-ℤ◌, ltb_ℤ, Bool-cases, ltb→lt,
}
use mth_apclient.Ap.State.{
  console_index_start, ApState, take_server_checked_pending, apply, inject_received_item,
  reset_session, push_received, apply_item, launch,
}
use mth_apclient.Ap.Events.{ReceivedItem, ap_connecting, ap_connected, ap_item_received, ApEvent}

-- An index that the server's cursor `last` or the console's index `console` has passed.
abbrev pub InRange : ℤ → ℤ → ReceivedItem → Type 0
InRange last console it =
    ((pos 0 ≤ℤ it.index) × (it.index ≤ℤ last))
    ⊎ ((console <ℤ it.index) × (it.index ≤ℤ console_index_start))

abbrev IsOther : ℤ → ReceivedItem → Type 0
IsOther index it = it.index ≢ index

-- No two of the items have one index.
abbrev pub IsDistinct : List ReceivedItem → Type 0
IsDistinct [] = Unit {0}
IsDistinct (it ∷ items) = All (λ other. other.index ≢ it.index) items × IsDistinct items

pub record HasCursor (s : ApState) : Type 0 where
  pub started : negsuc 0 ≤ℤ s.last_item_index
  pub console_below : s.console_index ≤ℤ console_index_start
  pub ranges : All (InRange s.last_item_index s.console_index) s.received_items
  pub distinct : IsDistinct s.received_items

InRange-mono :
    (last last' console console' : ℤ) (items : List ReceivedItem)
    → last ≤ℤ last'
    → console' ≤ℤ console
    → All (InRange last console) items
    → All (InRange last' console') items
InRange-mono last last' console console' [] h k r = tt
InRange-mono last last' console console' (it ∷ items) h k (r, rs) =
    (ground arith, InRange-mono last last' console console' items h k rs)

ne_of_server :
    (last console index : ℤ) (items : List ReceivedItem)
    → last <ℤ index
    → negsuc 0 ≤ℤ last
    → All (InRange last console) items
    → All (λ other. other.index ≢ index) items
ne_of_server last console index [] h k r = tt
ne_of_server last console index (it ∷ items) h k (r, rs) =
    (λ e. ground arith, ne_of_server last console index items h k rs)

ne_of_console :
    (last console : ℤ) (items : List ReceivedItem)
    → console ≤ℤ console_index_start
    → All (InRange last console) items
    → All (λ other. other.index ≢ console) items
ne_of_console last console [] h r = tt
ne_of_console last console (it ∷ items) h (r, rs) =
    (λ e. ground arith, ne_of_console last console items h rs)

IsDistinct-snoc :
    (items : List ReceivedItem) (it : ReceivedItem)
    → All (λ other. other.index ≢ it.index) items
    → IsDistinct items
    → IsDistinct (items ++ it ∷ [])
IsDistinct-snoc [] it h d = (tt, tt)
IsDistinct-snoc (x ∷ items) it (h, hs) (d, ds) = (
  All-append (λ other. other.index ≢ x.index) items (it ∷ []) d ((λ e. h (sym e)), tt),
  IsDistinct-snoc items it hs ds,
)

launch-HasCursor : HasCursor launch
unfolding launch
launch-HasCursor = record {
  started = omega arith;
  console_below = omega arith;
  ranges = tt;
  distinct = tt;
}

reset_session-HasCursor : (s : ApState) → HasCursor (reset_session s)
unfolding reset_session
reset_session-HasCursor s = record {
  started = omega arith;
  console_below = omega arith;
  ranges = tt;
  distinct = tt;
}

inject-HasCursor :
    (item_id : ℤ) (s : ApState) → HasCursor s → HasCursor (inject_received_item item_id s)
unfolding inject_received_item
inject-HasCursor item_id s v = record {
  started = v.started;
  console_below = ground (arith, v.console_below);
  ranges =
      All-append _ s.received_items _
        (InRange-mono s.last_item_index s.last_item_index s.console_index (s.console_index -ℤ pos 1)
          s.received_items (omega arith) (ground arith) v.ranges)
        (inr (ground arith, v.console_below), tt);
  distinct =
      IsDistinct-snoc s.received_items _
        (ne_of_console s.last_item_index s.console_index s.received_items v.console_below v.ranges)
        v.distinct;
}

item_fresh-HasCursor :
    (item : ReceivedItem) (s : ApState)
    → HasCursor s
    → s.last_item_index <ℤ item.index
    → HasCursor (record (push_received item s) { last_item_index = item.index })
unfolding push_received
item_fresh-HasCursor item s v h = record {
  started = omega (arith, v.started, h);
  console_below = v.console_below;
  ranges =
      All-append _ s.received_items _
        (InRange-mono s.last_item_index item.index s.console_index s.console_index s.received_items
          (omega arith) (omega arith) v.ranges)
        (inl (ground (arith, v.started), omega arith), tt);
  distinct =
      IsDistinct-snoc s.received_items item
        (ne_of_server s.last_item_index s.console_index item.index s.received_items h v.started
          v.ranges)
        v.distinct;
}

item-HasCursor : (item : ReceivedItem) (s : ApState) → HasCursor s → HasCursor (apply_item item s)
unfolding apply_item
item-HasCursor item s v = elim (Bool-cases (ltb_ℤ s.last_item_index item.index)) [
  | inl newer ↦ rw newer (item_fresh-HasCursor item s v (ltb→lt _ _ newer))
  | inr old ↦ rw old v
]

-- Only an item moves the cursor.
keep-HasCursor :
    (s t : ApState)
    → t.received_items ≡ s.received_items
    → t.last_item_index ≡ s.last_item_index
    → t.console_index ≡ s.console_index
    → HasCursor s
    → HasCursor t
keep-HasCursor s t items last console v = record {
  started = rw last v.started;
  console_below = rw console v.console_below;
  ranges = rw (items, last, console) v.ranges;
  distinct = rw items v.distinct;
}

apply-HasCursor : (ev : ApEvent) (s : ApState) → HasCursor s → HasCursor (apply ev s)
unfolding apply
apply-HasCursor (ap_item_received item) s v = item-HasCursor item s v
apply-HasCursor ap_connecting s v = keep-HasCursor s _ refl refl refl v
apply-HasCursor (ap_connected e) s v = keep-HasCursor s _ refl refl refl v
apply-HasCursor _ s v = keep-HasCursor s _ refl refl refl v

-- The operations on `ApState` that change it, from whichever caller.
pub data Operation : Type 0 where
  applies : ApEvent → Operation
  injects : ℤ → Operation
  resets takes : Operation

unfoldable pub perform : Operation → ApState → ApState
perform (applies ev) s = apply ev s
perform (injects item_id) s = inject_received_item item_id s
perform resets s = reset_session s
perform takes s = (take_server_checked_pending s).1

unfoldable pub perform_all : List Operation → ApState → ApState
perform_all [] s = s
perform_all (op ∷ ops) s = perform_all ops (perform op s)

pub perform-HasCursor : (op : Operation) (s : ApState) → HasCursor s → HasCursor (perform op s)
unfolding perform take_server_checked_pending
perform-HasCursor (applies ev) s v = apply-HasCursor ev s v
perform-HasCursor (injects item_id) s v = inject-HasCursor item_id s v
perform-HasCursor resets s v = reset_session-HasCursor s
perform-HasCursor takes s v = keep-HasCursor s _ refl refl refl v

perform_all-HasCursor :
    (ops : List Operation) (s : ApState) → HasCursor s → HasCursor (perform_all ops s)
unfolding perform_all
perform_all-HasCursor [] s v = v
perform_all-HasCursor (op ∷ ops) s v = perform_all-HasCursor ops _ (perform-HasCursor op s v)

-- After any sequence of events, console injections, resets and drains from launch, no two received
-- items have one index, and each index lies between 0 and the server's cursor or between the
-- console's next index and -1000000.
pub received_items-HasCursor : (ops : List Operation) → HasCursor (perform_all ops launch)
received_items-HasCursor ops = perform_all-HasCursor ops launch launch-HasCursor
