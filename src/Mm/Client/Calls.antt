-- ===== src/Mm/Client/Calls.antt =====
-- Each call of a program that uses mm.c, at the payloads that it holds.
use cs0330_fall2022_7_malloc.Base.{
  ℕ, ◌+◌, ◌%◌, ◌^◌, ◌<◌, ◌≡◌, ◌≢◌, refl, sym, subst, ap, List, [], ◌∷◌, ◌++◌, Bool, true, false,
  arith, ◌∙◌, ◌⊎◌, inl, inr, if◌then◌else◌, ltb, ◌==◌,
}
use cs0330_fall2022_7_malloc.Machine.{Mem, State, Run, ok, null, set_byte, memset}
use cs0330_fall2022_7_malloc.Mm.{success, failure, mm_malloc, mm_free}
use cs0330_fall2022_7_malloc.Mm.Abstract.{Owns}
use cs0330_fall2022_7_malloc.Mm.Abstract.Calls.{malloc-Gives, free_takes}
use cs0330_fall2022_7_malloc.Mm.Abstract.Resize.{realloc-Becomes}
use cs0330_fall2022_7_malloc.Mm.Abstract.Write.{Owns-Touched, fill_into}
use cs0330_fall2022_7_malloc.Mm.Client.{
  Held, Reaches, began, allocated, refused, freed, reallocated, not_reallocated, wrote, Backs,
  Backed,
}
use cs0330_fall2022_7_malloc.Mm.Client.Backing.{Backs-Keeps, Backs-front}
use cs0330_fall2022_7_malloc.Mm.Init.{bare, mm_init_lem}
use cs0330_fall2022_7_malloc.Mm.Inv.{Inv}
use cs0330_fall2022_7_malloc.Mm.Realloc.{mm_realloc}
use cs0330_fall2022_7_malloc.Mm.Touch.{Touched}

-- A run has one result.
same_result :
    {A : Type 0} {r : Run A} {a a' : A} {s s' : State}
    → r ≡ ok a s
    → r ≡ ok a' s'
    → (a ≡ a') × (s ≡ s')
same_result e e' = (cc, cc)

abbrev fresh : (ptr size : ℕ) → State → Held
fresh ptr size s = record { addr = ptr; size = size; bytes = λ i. s.mem (ptr + i) }

abbrev pub resized : (b : Held) → (ptr size : ℕ) → State → Held
resized b ptr size s = record {
  addr = ptr;
  size = size;
  bytes = λ i. if ltb i b.size then b.bytes i else s.mem (ptr + i);
}

abbrev changed : Held → (i v : ℕ) → Held
changed b i v = record b { bytes = λ j. if j == i then v else b.bytes j }

pub malloc_step :
    (s : State) (live : List Held) (size : ℕ)
    → Backed s live
    → 0 < size
    → size + 32 < 2 ^ 31
    → ((ptr : ℕ) × (s' : State) × (mm_malloc size s ≡ ok ptr s')
        × (ptr ≢ null)
        × Backed s' (fresh ptr size s' ∷ live))
      ⊎ (mm_malloc size s ≡ ok null s)
malloc_step s live size (given, owns, backs) pos small =
    elim (malloc-Gives s given size owns pos small) [
      | inr none ↦ inr none
      | inl (s', before, q, k, after, run, owns', e, room, keeps, base) ↦ inl (
        q + 8,
        s',
        run,
        omega arith,
        (
          before ++ ((q, k) ∷ after),
          owns',
          (
            before,
            q,
            k,
            after,
            refl,
            refl,
            room,
            λ i lt. refl,
            subst (Backs s'.mem live) e (Backs-Keeps s.mem s'.mem live given keeps backs),
          ),
        ),
      )
    ]

pub free_step :
    (s : State) (xs : List Held) (b : Held) (ys : List Held)
    → Backed s (xs ++ (b ∷ ys))
    → (s' : State) × (mm_free b.addr s ≡ ok tt s') × Backed s' (xs ++ ys)
free_step s xs b ys (given, owns, backs) =
    let (before, q, k, after, e, at, room, holds, rest) = Backs-front s.mem xs b ys given backs in
    let (s', run, owns', keeps, base) = free_takes s before after q k (subst (Owns s) e owns) in
    (
      s',
      ap (λ t. mm_free t s) at ∙ run,
      (before ++ after, owns', Backs-Keeps s.mem s'.mem (xs ++ ys) (before ++ after) keeps rest),
    )

pub realloc_step :
    (s : State) (xs : List Held) (b : Held) (ys : List Held) (size : ℕ)
    → Backed s (xs ++ (b ∷ ys))
    → 0 < size
    → size + 64 < 2 ^ 31
    → ((ptr : ℕ) × (s' : State) × (mm_realloc b.addr size s ≡ ok ptr s')
        × (ptr ≢ null)
        × Backed s' (resized b ptr size s' ∷ (xs ++ ys)))
      ⊎ (mm_realloc b.addr size s ≡ ok null s)
realloc_step s xs b ys size (given, owns, backs) pos small =
    let (before, q, k, after, e, at, room, holds, rest) = Backs-front s.mem xs b ys given backs in
    elim (realloc-Becomes s size pos small before after q k (subst (Owns s) e owns)) [
      | inr none ↦ inr (ap (λ t. mm_realloc t size s) at ∙ none)
      | inl (s', before', q', k', after', run, owns', others, room', moved, keeps, base) ↦
          let data_kept : (i : ℕ)
              → i < size
              → s'.mem (q' + 8 + i) ≡ (if ltb i b.size then b.bytes i else s'.mem (q' + 8 + i)) =
            λ i lt.
              either (ltb i b.size) i refl
                (λ lt'. moved i (omega arith) ∙ ap (λ t. s.mem (t + i)) (sym at) ∙ holds i lt') in
          inl (
            q' + 8,
            s',
            ap (λ t. mm_realloc t size s) at ∙ run,
            omega arith,
            (
              before' ++ ((q', k') ∷ after'),
              owns',
              (
                before',
                q',
                k',
                after',
                refl,
                refl,
                room',
                data_kept,
                subst (Backs s'.mem (xs ++ ys)) (sym others)
                    (Backs-Keeps s.mem s'.mem (xs ++ ys) (before ++ after) keeps rest),
              ),
            ),
          )
    ]
  where
    either :
        {x y : ℕ} (c : Bool) (i : ℕ)
        → ltb i b.size ≡ c
        → (i < b.size → x ≡ y)
        → x ≡ (if c then y else x)
    either true i e h = h (ground (arith, e))
    either false i e h = refl

pub write_step :
    (s : State) (xs : List Held) (b : Held) (ys : List Held) (i v : ℕ)
    → Backed s (xs ++ (b ∷ ys))
    → i < b.size
    → Backed (record s { mem = set_byte s.mem (b.addr + i) v }) (changed b i v ∷ (xs ++ ys))
write_step s xs b ys i v (given, owns, backs) lt =
    let (before, q, k, after, e, at, room, holds, rest) = Backs-front s.mem xs b ys given backs in
    let m' : Mem = set_byte s.mem (b.addr + i) v in
    let touched : Touched q k s.mem m' = λ a h. ground (arith, h, at, room, lt) in
    let (owns', keeps) = Owns-Touched s before q k after (subst (Owns s) e owns) m' touched in
    (
      before ++ ((q, k) ∷ after),
      owns',
      (
        before,
        q,
        k,
        after,
        refl,
        at,
        room,
        λ j lt'. ground (arith, holds j lt'),
        Backs-Keeps s.mem m' (xs ++ ys) (before ++ after) keeps rest,
      ),
    )

pub fill_step :
    (s : State) (b : Held) (live : List Held) (v : ℕ)
    → Backed s (b ∷ live)
    → (m' : Mem) × (memset b.addr v b.size s ≡ ok tt (record s { mem = m' }))
      × Backed (record s { mem = m' }) (record b { bytes = λ i. v % 256 } ∷ live)
fill_step s b live v (given, owns, (before, q, k, after, e, at, room, holds, rest)) =
    let owns' = subst (Owns s) e owns in
    let (m', run, touched, filled) = fill_into s before q k after owns' v b.size room in
    let (owns'', keeps) = Owns-Touched s before q k after owns' m' touched in
    (
      m',
      ap (λ t. memset t v b.size s) at ∙ run,
      (
        before ++ ((q, k) ∷ after),
        owns'',
        (
          before,
          q,
          k,
          after,
          refl,
          at,
          room,
          λ i lt. ap (λ t. m' (t + i)) at ∙ filled i lt,
          Backs-Keeps s.mem m' live (before ++ after) keeps rest,
        ),
      ),
    )

pub Reaches-Backed : {s : State} {live : List Held} → Reaches s live → Backed s live
Reaches-Backed (began {s} {s'} empty run) = elim (mm_init_lem s empty) [
  | inl (s₁, run', inv, base, limit) ↦
      ([], (bare, subst (λ t. Inv t bare) (same_result run' run).1 inv, refl), refl)
  | inr (s₁, run', full) ↦ absurd (other (same_result run run').0)
]
  where
    other : success ≡ failure → ⊥
    other e = cc
Reaches-Backed (allocated {s} {s'} {live} {ptr} size h pos small run ne) =
    elim (malloc_step s live size (Reaches-Backed h) pos small) [
      | inl (ptr', s₁, run', ne', backed) ↦
          subst (λ t. Backed s' (fresh t size s' ∷ live)) (same_result run' run).0
            (subst (λ t. Backed t (fresh ptr' size t ∷ live)) (same_result run' run).1 backed)
      | inr none ↦ absurd (ne (same_result run none).0)
    ]
Reaches-Backed (refused {s} {s'} {live} size h pos small run) =
    elim (malloc_step s live size (Reaches-Backed h) pos small) [
      | inl (ptr', s₁, run', ne', backed) ↦ absurd (ne' (same_result run' run).0)
      | inr none ↦ subst (λ t. Backed t live) (same_result none run).1 (Reaches-Backed h)
    ]
Reaches-Backed (freed {s} {s'} xs b ys h run) =
    let (s₁, run', backed) = free_step s xs b ys (Reaches-Backed h) in
    subst (λ t. Backed t (xs ++ ys)) (same_result run' run).1 backed
Reaches-Backed (reallocated {s} {s'} xs b ys {ptr} size h pos small run ne) =
    elim (realloc_step s xs b ys size (Reaches-Backed h) pos small) [
      | inl (ptr', s₁, run', ne', backed) ↦
          subst (λ t. Backed s' (resized b t size s' ∷ (xs ++ ys))) (same_result run' run).0
            (subst (λ t. Backed t (resized b ptr' size t ∷ (xs ++ ys))) (same_result run' run).1
              backed)
      | inr none ↦ absurd (ne (same_result run none).0)
    ]
Reaches-Backed (not_reallocated {s} {s'} xs b ys size h pos small run) =
    elim (realloc_step s xs b ys size (Reaches-Backed h) pos small) [
      | inl (ptr', s₁, run', ne', backed) ↦ absurd (ne' (same_result run' run).0)
      | inr none ↦
          subst (λ t. Backed t (xs ++ (b ∷ ys))) (same_result none run).1 (Reaches-Backed h)
    ]
Reaches-Backed (wrote {s} xs b ys i v h lt) = write_step s xs b ys i v (Reaches-Backed h) lt
