-- ===== src/Store/Mount/Atomic.antt =====
-- A mount sees each transaction that was written as a whole, and nothing of one that was cut short.
use cogent.Prelude.{
  ℕ, ◌+◌, ◌≤◌, ◌<◌, ◌≡◌, refl, ap, ◌∙◌, Bool, true, false, List, [], ◌∷◌, ◌++◌, Option, some, arith,
  length, length-append, ◌==◌,
}
use cogent.Types.{ObjAddr, Result, ok, err, Errno, max_obj_per_trans}
use cogent.Obj.{get_obj_trans}
use cogent.Tree.{Rbt}
use cogent.Store.Mount.{
  Found, Mounting, check_trans_pos, and_then, proc_trans, scan_objs, mount_scan_rbuf,
}

-- The position that an object gets in its transaction is the one that a mount expects there, and
-- the last one alone ends the transaction.
pub check-get_obj_trans :
    (count i : ℕ) → i < count → check_trans_pos i (get_obj_trans count i) ≡ ok (i + 1 == count)
unfolding check_trans_pos get_obj_trans
check-get_obj_trans count i h = ground arith

-- The objects from the `i`-th on of a transaction of `count`, with the positions that
-- `ostore_write_obj_list` gives them.
abbrev pub label : ℕ → ℕ → List Found → List Found
label count i [] = []
label count i (x ∷ xs) =
    record x { obj = record x.obj { trans = get_obj_trans count i } } ∷ label count (i + 1) xs

abbrev pub written : List Found → List Found
written xs = label (length xs) 0 xs

abbrev pub log : List (List Found) → List Found
log [] = []
log (t ∷ ts) = written t ++ log ts

-- Every transaction has an object, and no more than fit.
abbrev pub AreWhole : List (List Found) → Type 0
AreWhole [] = Unit
AreWhole (t ∷ ts) = (0 < length t) × (length t ≤ max_obj_per_trans) × AreWhole ts

append_assoc : (xs ys zs : List Found) → (xs ++ ys) ++ zs ≡ xs ++ (ys ++ zs)
append_assoc [] ys zs = refl
append_assoc (x ∷ xs) ys zs = ap (λ (l : List Found). x ∷ l) (append_assoc xs ys zs)

module _ (rbt : Rbt) (mem : ℕ → Bool) (node_size : ℕ) (last : Errno) where
  -- The transactions one after the other.
  abbrev pub proc_all : Mounting → List (List Found) → Option (Result (Unit {0}) × Mounting)
  proc_all m [] = some (err last, m)
  proc_all m (t ∷ ts) = and_then (proc_trans rbt mem node_size m (written t)) (λ m'. proc_all m' ts)

  scan_last :
      (m : Mounting) (queue : List Found) (x : Found) (xs : List Found)
      → check_trans_pos (length queue) x.obj.trans ≡ ok true
      → scan_objs rbt mem node_size m queue (x ∷ xs) last
        ≡ and_then
            (proc_trans rbt mem node_size m (queue ++ x ∷ []))
            (λ m'. scan_objs rbt mem node_size m' [] xs last)
  unfolding scan_objs
  scan_last m queue x xs e = rw (e, scan_objs) refl

  scan_more :
      (m : Mounting) (queue : List Found) (x : Found) (xs : List Found)
      → check_trans_pos (length queue) x.obj.trans ≡ ok false
      → length queue + 1 < max_obj_per_trans
      → scan_objs rbt mem node_size m queue (x ∷ xs) last
        ≡ scan_objs rbt mem node_size m (queue ++ x ∷ []) xs last
  unfolding scan_objs
  scan_more m queue x xs e h =
      let room : (length queue + 1 == max_obj_per_trans) ≡ false = ground arith in
      rw (e, scan_objs, room) refl

  scan_end :
      (m : Mounting) (queue : List Found)
      → scan_objs rbt mem node_size m queue [] last ≡ some (err last, m)
  unfolding scan_objs
  scan_end m queue = refl

  position :
      (count i : ℕ) (queue : List Found) (b : Bool)
      → length queue ≡ i
      → i < count
      → (i + 1 == count) ≡ b
      → check_trans_pos (length queue) (get_obj_trans count i) ≡ ok b
  position count i queue b q h e = rw (q, check-get_obj_trans count i h, e) refl

  -- The rest of a transaction of which the queue has the first `i` objects.
  scan_trans :
      (m : Mounting) (count i : ℕ) (queue xs more : List Found)
      → length queue ≡ i
      → i + length xs ≡ count
      → 0 < length xs
      → count ≤ max_obj_per_trans
      → scan_objs rbt mem node_size m queue (label count i xs ++ more) last
        ≡ and_then
            (proc_trans rbt mem node_size m (queue ++ label count i xs))
            (λ m'. scan_objs rbt mem node_size m' [] more last)
  scan_trans m count i queue [] more q c h fit = absurd (omega arith)
  scan_trans m count i queue (x ∷ []) more q c h fit =
      scan_last m queue (record x { obj = record x.obj { trans = get_obj_trans count i } }) more
        (position count i queue true q (omega arith) (ground arith))
  scan_trans m count i queue (x ∷ y ∷ ys) more q c h fit =
      let x' : Found = record x { obj = record x.obj { trans = get_obj_trans count i } } in
      scan_more m queue x' (label count (i + 1) (y ∷ ys) ++ more)
        (position count i queue false q (omega arith) (ground arith)) (omega arith)
      ∙ scan_trans m count (i + 1) (queue ++ x' ∷ []) (y ∷ ys) more
          (omega (arith, length-append queue (x' ∷ []))) (omega arith) (omega arith) fit
      ∙ ap
          (λ (l : List Found).
            and_then (proc_trans rbt mem node_size m l)
              (λ m'. scan_objs rbt mem node_size m' [] more last))
          (append_assoc queue (x' ∷ []) (label count (i + 1) (y ∷ ys)))

  -- A transaction that is cut short is not processed at all.
  scan_torn :
      (m : Mounting) (count i : ℕ) (queue xs : List Found)
      → length queue ≡ i
      → i + length xs < count
      → count ≤ max_obj_per_trans
      → scan_objs rbt mem node_size m queue (label count i xs) last ≡ some (err last, m)
  scan_torn m count i queue [] q h fit = scan_end m queue
  scan_torn m count i queue (x ∷ xs) q h fit =
      let x' : Found = record x { obj = record x.obj { trans = get_obj_trans count i } } in
      scan_more m queue x' (label count (i + 1) xs)
        (position count i queue false q (omega arith) (ground arith)) (omega arith)
      ∙ scan_torn m count (i + 1) (queue ++ x' ∷ []) xs
          (omega (arith, length-append queue (x' ∷ []))) (omega arith) fit

  scan_log :
      (m : Mounting) (ts : List (List Found)) (count : ℕ) (xs : List Found)
      → AreWhole ts
      → length xs < count
      → count ≤ max_obj_per_trans
      → scan_objs rbt mem node_size m [] (log ts ++ label count 0 xs) last ≡ proc_all m ts
  scan_log m [] count xs w h fit = scan_torn m count 0 [] xs refl (omega arith) fit
  scan_log m (t ∷ ts) count xs w h fit =
      ap (λ (l : List Found). scan_objs rbt mem node_size m [] l last)
        (append_assoc (written t) (log ts) (label count 0 xs))
      ∙ scan_trans m (length t) 0 [] t (log ts ++ label count 0 xs) refl (omega arith) w.0 w.1
      ∙ ap (and_then (proc_trans rbt mem node_size m (written t)))
          (λ i m'. scan_log m' ts count xs w.2 h fit i)

  -- Reading a block that holds whole transactions and then some first objects of one that was cut
  -- short processes the whole ones, in order and until one fails, and nothing of the other. A
  -- transaction has between one object and the limit, and its objects have the positions that
  -- the write path gives them.
  pub mount_scan-proc_all :
      (m : Mounting) (addr : ObjAddr) (ts : List (List Found)) (count : ℕ) (xs : List Found)
      → addr.len ≡ 0
      → AreWhole ts
      → length xs < count
      → count ≤ max_obj_per_trans
      → mount_scan_rbuf rbt mem node_size m addr true (log ts ++ label count 0 xs) last
        ≡ proc_all m ts
  unfolding mount_scan_rbuf
  mount_scan-proc_all m addr ts count xs e w h fit = rw e (scan_log m ts count xs w h fit)
