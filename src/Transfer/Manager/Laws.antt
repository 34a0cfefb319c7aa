-- ===== src/Transfer/Manager/Laws.antt =====
-- The queue as a map from transfer ids to tasks.
use vnt_gui_dev.Prelude.{
  ◌%◌, ℕ, ◌+◌, ◌<◌, ◌^◌, ◌≡◌, ◌↔◌, refl, sym, ◌∙◌, subst, ==_refl, Bool, false, not, Option, none,
  some, List, [], ◌∷◌, ◌++◌, ◌==◌, arith, if◌then◌else◌, find, filter, update_first, All,
  All-append, All-filter,
}
use vnt_gui_dev.Transfer.Manager.{
  TransferTask, TransferManager, has_id, stamped, enqueue, find_task, update, remove,
}

-- Every task has an id below the next one, and the id counter has not wrapped.
pub record IsValid (m : TransferManager) : Type 0 where
  pub below : All (λ t. t.transfer_id < m.next_id) m.tasks
  pub unwrapped : m.next_id < 2 ^ 64

find-append :
    (id : ℕ) (ts : List TransferTask) (t : TransferTask)
    → All (λ u. u.transfer_id < t.transfer_id) ts
    → find (has_id id) (ts ++ t ∷ [])
      ≡ (if t.transfer_id == id then some t else find (has_id id) ts)
find-append id [] t h = refl
find-append id (u ∷ ts) t h = ground (arith, find-append id ts t h.1)

find-filter :
    (id key : ℕ) (ts : List TransferTask)
    → find (has_id key) (filter (λ t. not (has_id id t)) ts)
      ≡ (if id == key then none else find (has_id key) ts)
find-filter id key [] = ground arith
find-filter id key (t ∷ ts) = ground (arith, find-filter id key ts)

abbrev pub map_option : (TransferTask → TransferTask) → Option TransferTask → Option TransferTask
map_option f none = none
map_option f (some t) = some (f t)

find-update_first :
    (id key : ℕ) (f : TransferTask → TransferTask) (ts : List TransferTask)
    → ((t : TransferTask) → (f t).transfer_id ≡ t.transfer_id)
    → find (has_id key) (update_first (has_id id) f ts)
      ≡ (if id == key then map_option f (find (has_id key) ts) else find (has_id key) ts)
find-update_first id key f [] h = ground arith
find-update_first id key f (t ∷ ts) h = ground (arith, find-update_first id key f ts h, h t)

stamped_id : (now : ℕ) (t : TransferTask) → (stamped now t).transfer_id ≡ t.transfer_id
stamped_id now t = ground arith

find_enqueued :
    (m : TransferManager) (now key : ℕ) (task : TransferTask)
    → IsValid m
    → find (has_id key) (m.tasks ++ stamped now (record task { transfer_id = m.next_id }) ∷ []) ≡ (
        if m.next_id == key
        then some (stamped now (record task { transfer_id = m.next_id }))
        else find (has_id key) m.tasks)
find_enqueued m now key task v =
    let t = stamped now (record task { transfer_id = m.next_id }) in
    let e : t.transfer_id ≡ m.next_id = stamped_id now (record task { transfer_id = m.next_id }) in
    subst
      (λ k.
        find (has_id key) (m.tasks ++ t ∷ [])
        ≡ (if k == key then some t else find (has_id key) m.tasks))
      e
      (find-append key m.tasks t
        (subst (λ k. All (λ u. u.transfer_id < k) m.tasks) (sym e) v.below))

-- Looking up after each operation: a queued task is found under the id that was returned, with the
-- clock's time if it had none; a removed task is not found; an update changes the task of its id,
-- if there is one, and reports whether there is. No other id is affected. The updater does not
-- change ids.
find_task_after :
    (m : TransferManager) (now id key : ℕ) (task : TransferTask)
    (updater : TransferTask → TransferTask)
    → IsValid m
    → ((t : TransferTask) → (updater t).transfer_id ≡ t.transfer_id)
    → (find_task key (enqueue now task m).1 ≡ (
        if (enqueue now task m).0 == key
        then some (stamped now (record task { transfer_id = (enqueue now task m).0 }))
        else find_task key m))
      × (find_task key (remove id m) ≡ (if id == key then none else find_task key m))
      × (find_task key (update id updater m).1
          ≡ (if id == key then map_option updater (find_task key m) else find_task key m))
      × (((update id updater m).0 ≡ false) ↔ (find_task id m ≡ none))
unfolding find_task enqueue remove update
find_task_after m now id key task updater v keeps = (
  find_enqueued m now key task v,
  find-filter id key m.tasks,
  find-update_first id key updater m.tasks keeps,
  ground arith,
)

-- Looking up after an update, with the queue shut.
pub find_task-update :
    (id key : ℕ) (f : TransferTask → TransferTask) (m : TransferManager)
    → ((t : TransferTask) → (f t).transfer_id ≡ t.transfer_id)
    → find_task key (update id f m).1
      ≡ (if id == key then map_option f (find_task key m) else find_task key m)
unfolding find_task update
find_task-update id key f m keeps = find-update_first id key f m.tasks keeps

-- The task of the id itself, found and then updated.
pub find_task-updated :
    (id : ℕ) (f : TransferTask → TransferTask) (m : TransferManager) (t : TransferTask)
    → ((u : TransferTask) → (f u).transfer_id ≡ u.transfer_id)
    → find_task id m ≡ some t
    → find_task id (update id f m).1 ≡ some (f t)
find_task-updated id f m t keeps h = find_task-update id id f m keeps ∙ rw (==_refl id, h)

below_next :
    (n : ℕ) (ts : List TransferTask)
    → All (λ t. t.transfer_id < n) ts
    → All (λ t. t.transfer_id < n + 1) ts
below_next n [] h = tt
below_next n (t ∷ ts) h = (omega (arith, h.0), below_next n ts h.1)

below_updated :
    (n : ℕ) (p : TransferTask → Bool) (f : TransferTask → TransferTask) (ts : List TransferTask)
    → ((t : TransferTask) → (f t).transfer_id ≡ t.transfer_id)
    → All (λ t. t.transfer_id < n) ts
    → All (λ t. t.transfer_id < n) (update_first p f ts)
below_updated n p f [] keeps h = tt
below_updated n p f (t ∷ ts) keeps h = ground (arith, below_updated n p f ts keeps h.1, keeps t)

-- The operations keep the queue valid while less than 2^64 - 1 ids have been given.
operations-IsValid :
    (m : TransferManager) (now id : ℕ) (task : TransferTask) (updater : TransferTask → TransferTask)
    → IsValid m
    → m.next_id + 1 < 2 ^ 64
    → ((t : TransferTask) → (updater t).transfer_id ≡ t.transfer_id)
    → IsValid (enqueue now task m).1 × IsValid (remove id m) × IsValid (update id updater m).1
unfolding enqueue remove update
operations-IsValid m now id task updater v room keeps =
    let e : (m.next_id + 1) % 2 ^ 64 ≡ m.next_id + 1 = omega arith in
    let t = stamped now (record task { transfer_id = m.next_id }) in
    (
      record {
        below = rw e (
            All-append (λ u. u.transfer_id < m.next_id + 1) m.tasks (t ∷ [])
              (below_next m.next_id m.tasks v.below)
              (omega (arith, stamped_id now (record task { transfer_id = m.next_id })), tt));
        unwrapped = omega arith;
      },
      record {
        below = All-filter (λ u. u.transfer_id < m.next_id) _ m.tasks v.below;
        unwrapped = v.unwrapped;
      },
      record {
        below = below_updated m.next_id (has_id id) updater m.tasks keeps v.below;
        unwrapped = v.unwrapped;
      },
    )
