-- ===== src/Thread/Operation/Release.antt =====
-- What the constructors of Operation acquire, and what they and AIOOperation_clear give back.
use caio.Base.{
  ltb, ◌==◌, if◌then◌else◌, Bool-cases, Option-cases, is_none, replicate, signed64, Ref, incref,
  xdecref, PyErr, value_error, memory_error, propagated, Result, ok, raise, py_true, ◌+◌, ◌<◌, ◌≡◌,
  refl, ◌⊎◌, inl, inr, Bool, true, false, ◌&&◌, Option, none, some, List, [], ◌∷◌, ◌++◌, arith,
}
use caio.Thread.State.{thaio_read, World}
use caio.Thread.Operation.{clear, dealloc, Alloc, ReadArgs, read, set_callback}

-- The object `p`, whose construction ended in `w`, was given back with the blocks `bs`.
pub record GivesBack (p : Ref) (bs : List Ref) (w w' : World) : Type 0 where
  pub freed : w'.freed ≡ p ∷ bs ++ w.freed
  pub unowned : w'.refs p ≡ 0
  pub others : (q : Ref) → (q == p) ≡ false → w'.refs q ≡ w.refs q

abbrev blocks_of : Option Ref → List Ref
blocks_of none = []
blocks_of (some b) = b ∷ []

-- A new read: not claimed, not done, over a zeroed block of the size that was asked for, which only
-- a read of no bytes may lack.
pub record IsNewRead (a : Alloc) (args : ReadArgs) (p : Ref) (w' : World) : Type 0 where
  pub code : (w'.ops p).opcode ≡ thaio_read
  pub not_claimed : (w'.ops p).in_progress ≡ false
  pub unfinished : (w'.ops p).done ≡ false
  pub bare : (w'.ops p).ctx ≡ none
  pub block : (w'.ops p).buf ≡ a.calloc args.nbytes
  pub size : (w'.ops p).buf_size ≡ signed64 args.nbytes
  pub held : 0 < args.nbytes → (b : Ref) × ((w'.ops p).buf ≡ some b)
  pub zeroed : (b : Ref) → (w'.ops p).buf ≡ some b → w'.blocks b ≡ replicate args.nbytes 0
  pub viewed : (w'.ops p).py_buffer ≡ a.view

abbrev pub ReadCases : Alloc → Ref → World → Option ReadArgs → Result Ref × World → Type 0
ReadCases a p w args (r, w') =
    ((x : ReadArgs) × (args ≡ some x) × (r ≡ ok p) × IsNewRead a x p w')
    ⊎ ((e : PyErr) × (r ≡ raise e)
        × GivesBack p (elim args [ none ↦ [] | some x ↦ blocks_of (a.calloc x.nbytes) ]) w w')

-- AIOOperation_read, once it has an object: it returns a new read, over a zeroed block where bytes
-- were asked for, or it raises and gives back the object, and the block where it had one. It raises for arguments that do not parse, with no memory
-- for a block that is not empty, and with no memory for the view.
pub read_cases :
    (a : Alloc) (args : Option ReadArgs) (p : Ref) (w : World)
    → a.object ≡ some p
    → ReadCases a p w args (read a args w)
unfolding read dealloc
read_cases a none p w e = inr (
  propagated,
  ground arith,
  record { freed = ground arith; unowned = ground arith; others = ground arith },
)
read_cases a (some args) p w e =
    elim (Bool-cases (is_none (a.calloc args.nbytes) && ltb 0 args.nbytes)) [
      | inl poor ↦ inr (
        memory_error,
        ground arith,
        (record { freed = ground arith; unowned = ground arith; others = ground arith }),
      )
      | inr enough ↦ elim (Option-cases a.view) [
        | inl blind ↦ inr (
          propagated,
          ground arith,
          (record { freed = ground arith; unowned = ground arith; others = ground arith }),
        )
        | inr (v, seen) ↦ inl (
          args,
          refl,
          ground arith,
          record {
            code = ground arith;
            not_claimed = ground arith;
            unfinished = ground arith;
            bare = ground arith;
            block = ground arith;
            size = ground arith;
            held = λ some_bytes. elim (Option-cases (a.calloc args.nbytes)) [
              | inl no_block ↦ absurd (ground arith)
              | inr (b, got) ↦ (b, ground arith)
            ];
            zeroed = λ b got. ground arith;
            viewed = ground arith;
          },
        )
      ]
    ]

-- The collector's clear frees the block of a read, and nothing for another operation. A second one,
-- that of AIOOperation_dealloc, frees no block again and drops no reference again.
pub clear_once :
    (p : Ref) (w : World)
    → let w' = clear p w in
      (w'.freed
        ≡ (elim (w.ops p).opcode [ thaio_read ↦ blocks_of (w.ops p).buf ++ w.freed | _ ↦ w.freed ]))
      × ((dealloc p w').freed ≡ p ∷ w'.freed)
      × ((q : Ref) → (dealloc p w').refs q ≡ w'.refs q)
unfolding dealloc
clear_once p w = (ground arith, ground arith, ground arith)

-- set_callback holds the new callable and lets the old one go; another object it refuses, and
-- nothing changes.
pub set_callback-refs :
    (p f : Ref) (callable : Ref → Bool) (w : World)
    → ((g : Ref) → (w.ops p).callback ≡ some g → 0 < w.refs g)
    → let (r, w') = set_callback p callable (some f) w in
      ((callable f ≡ true)
        × (r ≡ ok py_true)
        × ((w'.ops p).callback ≡ some f)
        × ((q : Ref)
            → w'.refs q + (elim (w.ops p).callback [ none ↦ 0 | some g ↦ if q == g then 1 else 0 ])
              ≡ w.refs q + (if q == f then 1 else 0)))
      ⊎ ((callable f ≡ false) × (r ≡ raise (value_error "object is not callable")) × (w' ≡ w))
unfolding set_callback
set_callback-refs p f callable w owned = elim (Bool-cases (callable f)) [
  | inl good ↦
      rw (good, set_callback) (inl (refl, refl, ground arith, refs (w.ops p).callback owned))
  | inr bad ↦ rw (bad, set_callback) (inr (refl, refl, refl))
]
  where
    refs :
        (g : Option Ref)
        → ((h : Ref) → g ≡ some h → 0 < w.refs h)
        → (q : Ref)
        → xdecref g (incref f w.refs) q + (elim g [ none ↦ 0 | some h ↦ if q == h then 1 else 0 ])
          ≡ w.refs q + (if q == f then 1 else 0)
    refs none own q = ground arith
    refs (some h) own q = ground (arith, own h refl)
