-- ===== src/Thread/System/Renewal.antt =====
-- The steps that make, change or release an operation which no worker has.
use caio.Base.{
  ◌==◌, Option-cases, count, Ref, ℕ, ◌≤◌, ◌≡◌, sym, subst, ◌≢◌, inl, inr, Bool, false, Option, none,
  some, List, [], ◌∷◌, arith,
}
use caio.Thread.State.{World}
use caio.Thread.Operation.{
  clear, dealloc, Alloc, ReadArgs, WriteArgs, read, write, fsync, fdsync, set_callback, payload,
}
use caio.Thread.Context.{close}
use caio.Thread.Worker.{is_noop}
use caio.Thread.System.{Job, pending, running, Call, reads, writes, fsyncs, fdsyncs, create}
use caio.Thread.System.Sound.{Inv}

pub pending-le-running : (p : Ref) (js : List Job) → pending p js ≤ running p js
pending-le-running p [] = omega arith
pending-le-running p (record_j ∷ js) = ground (arith, pending-le-running p js)

-- The operation at `p` is new, or was given back; the others and the tasks are as they were.
pub record Renews (p : Ref) (w w' : World) : Type 0 where
  pub others : (q : Ref) → (q == p) ≡ false → w'.ops q ≡ w.ops q
  pub tasks : w'.tasks ≡ w.tasks
  pub idle : (w'.ops p).in_progress ≡ false
  pub not_done : (w'.ops p).done ≡ false
  pub bare : (w'.ops p).ctx ≡ none
  pub real : is_noop (w'.ops p).opcode ≡ false

Renews-Inv :
    (js : List Job) (p : Ref) (w w' : World)
    → Renews p w w'
    → count p w.tasks ≡ 0
    → running p js ≡ 0
    → Inv w js
    → Inv w' js
Renews-Inv js p w w' r no_task no_job h q =
    ground (arith, h q, h p, r.others q, pending-le-running p js, r.tasks)

read-Renews :
    (a : Alloc) (p : Ref) (args : Option ReadArgs) (w : World)
    → a.object ≡ some p
    → Renews p w (read a args w).1
unfolding read dealloc
read-Renews a p args w e = record {
  others = ground arith;
  tasks = ground arith;
  idle = ground arith;
  not_done = ground arith;
  bare = ground arith;
  real = ground arith;
}

write-Renews :
    (a : Alloc) (p : Ref) (args : Option WriteArgs) (w : World)
    → a.object ≡ some p
    → Renews p w (write a args w).1
unfolding write dealloc
write-Renews a p args w e = record {
  others = ground arith;
  tasks = ground arith;
  idle = ground arith;
  not_done = ground arith;
  bare = ground arith;
  real = ground arith;
}

fsync-Renews :
    (a : Alloc) (p : Ref) (args : Option ℕ) (w : World)
    → a.object ≡ some p
    → Renews p w (fsync a args w).1
unfolding fsync dealloc
fsync-Renews a p args w e = record {
  others = ground arith;
  tasks = ground arith;
  idle = ground arith;
  not_done = ground arith;
  bare = ground arith;
  real = ground arith;
}

fdsync-Renews :
    (a : Alloc) (p : Ref) (args : Option ℕ) (w : World)
    → a.object ≡ some p
    → Renews p w (fdsync a args w).1
unfolding fdsync dealloc
fdsync-Renews a p args w e = record {
  others = ground arith;
  tasks = ground arith;
  idle = ground arith;
  not_done = ground arith;
  bare = ground arith;
  real = ground arith;
}

pub create-Renews :
    (a : Alloc) (call : Call) (p : Ref) (w : World)
    → a.object ≡ some p
    → Renews p w (create a call w).1
unfolding create
create-Renews a (reads args) p w e = read-Renews a p args w e
create-Renews a (writes args) p w e = write-Renews a p args w e
create-Renews a (fsyncs args) p w e = fsync-Renews a p args w e
create-Renews a (fdsyncs args) p w e = fdsync-Renews a p args w e

-- Where none of the blocks that the allocator gives is `b`, the bytes at `b` stay as they are.
pub create-blocks :
    (a : Alloc) (call : Call) (b : Ref) (w : World)
    → ((n : ℕ) → a.calloc n ≢ some b)
    → (create a call w).1.blocks b ≡ w.blocks b
unfolding create read write fsync fdsync dealloc
create-blocks a (reads none) b w away = ground arith
create-blocks a (reads (some args)) b w away = ground (arith, away args.nbytes)
create-blocks a (writes args) b w away = ground arith
create-blocks a (fsyncs args) b w away = ground arith
create-blocks a (fdsyncs args) b w away = ground arith

-- With no memory for the object nothing happens.
pub create-none : (a : Alloc) (call : Call) (w : World) → a.object ≡ none → (create a call w).1 ≡ w
unfolding create read write fsync fdsync
create-none a (reads args) w e = rw (e, read)
create-none a (writes args) w e = rw (e, write)
create-none a (fsyncs args) w e = rw (e, fsync)
create-none a (fdsyncs args) w e = rw (e, fdsync)

pub create-Inv :
    (js : List Job) (a : Alloc) (call : Call) (w : World)
    → ((p : Ref) → a.object ≡ some p → (count p w.tasks ≡ 0) × (running p js ≡ 0))
    → Inv w js
    → Inv (create a call w).1 js
create-Inv js a call w unused h = elim (Option-cases a.object) [
  | inl e ↦ subst (λ v. Inv v js) (sym (create-none a call w e)) h
  | inr (p, e) ↦
      Renews-Inv js p w (create a call w).1 (create-Renews a call p w e) (unused p e).0
        (unused p e).1 h
]

pub clear-Inv :
    (js : List Job) (p : Ref) (w : World)
    → count p w.tasks ≡ 0
    → running p js ≡ 0
    → Inv w js
    → Inv (clear p w) js
unfolding clear
clear-Inv js p w no_task no_job h q = ground (arith, h q, h p, pending-le-running p js)

pub set_callback-Inv :
    (js : List Job) (p : Ref) (callable : Ref → Bool) (f : Option Ref) (w : World)
    → Inv w js
    → Inv (set_callback p callable f w).1 js
unfolding set_callback
set_callback-Inv js p callable f w h q = ground (arith, h q, h p)

pub payload-Inv : (js : List Job) (p : Ref) (w : World) → Inv w js → Inv (payload p w).1 js
unfolding payload
payload-Inv js p w h q = ground (arith, h q)

pub close-Inv : (js : List Job) (c : Ref) (w : World) → Inv w js → Inv (close c w).1 js
unfolding close
close-Inv js c w h q = ground (arith, h q)
