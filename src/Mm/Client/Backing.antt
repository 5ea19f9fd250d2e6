-- ===== src/Mm/Client/Backing.antt =====
-- The blocks behind the payloads that a program holds: their order does not matter, and calls that
-- keep their payloads keep what they hold.
use mathlib.Core.List.{append_assoc}
use cs0330_fall2022_7_malloc.Base.{◌+◌, sym, subst, ap, List, [], ◌∷◌, ◌++◌, arith, ◌∙◌, inl, inr}
use cs0330_fall2022_7_malloc.Machine.{Mem}
use cs0330_fall2022_7_malloc.Mm.Abstract.{Given, Keeps}
use cs0330_fall2022_7_malloc.Mm.Abstract.Find.{split_join}
use cs0330_fall2022_7_malloc.Mm.Abstract.Move.{Keeps-without}
use cs0330_fall2022_7_malloc.Mm.Client.{Held, Backs}

pub Backs-Keeps :
    (m m' : Mem) (live : List Held) (given : Given)
    → Keeps given m m'
    → Backs m live given
    → Backs m' live given
Backs-Keeps m m' [] given keeps h = h
Backs-Keeps m m' (b ∷ live) given keeps (before, q, k, after, e, at, room, holds, rest) =
    let (kept, same) = Keeps-without m m' before after q k (subst (λ t. Keeps t m m') e keeps) in
    (
      before,
      q,
      k,
      after,
      e,
      at,
      room,
      λ i lt. same (b.addr + i) (omega arith) (omega arith) ∙ holds i lt,
      Backs-Keeps m m' live (before ++ after) kept rest,
    )

-- Any payload can be taken as the first one.
pub Backs-front :
    (m : Mem) (xs : List Held) (b : Held) (ys : List Held) (given : Given)
    → Backs m (xs ++ (b ∷ ys)) given
    → Backs m (b ∷ (xs ++ ys)) given
Backs-front m [] b ys given h = h
Backs-front m (x ∷ xs) b ys given (front, q, k, back, e, at, room, holds, rest) =
    let (before, q', k', after, e', at', room', holds', rest') =
      Backs-front m xs b ys (front ++ back) rest in
    elim (split_join (q', k') front back before after e') [
      | inl (mid, e₁, e₂) ↦ (
        before,
        q',
        k',
        mid ++ ((q, k) ∷ back),
        e
            ∙ ap (λ t. t ++ ((q, k) ∷ back)) e₁
            ∙ append_assoc before ((q', k') ∷ mid) ((q, k) ∷ back),
        at',
        room',
        holds',
        (
          before ++ mid,
          q,
          k,
          back,
          sym (append_assoc before mid ((q, k) ∷ back)),
          at,
          room,
          holds,
          subst (Backs m (xs ++ ys)) (ap (λ t. before ++ t) e₂ ∙ sym (append_assoc before mid back))
              rest',
        ),
      )
      | inr (mid, e₁, e₂) ↦ (
        front ++ ((q, k) ∷ mid),
        q',
        k',
        after,
        e
            ∙ ap (λ t. front ++ ((q, k) ∷ t)) e₂
            ∙ sym (append_assoc front ((q, k) ∷ mid) ((q', k') ∷ after)),
        at',
        room',
        holds',
        (
          front,
          q,
          k,
          mid ++ after,
          append_assoc front ((q, k) ∷ mid) after,
          at,
          room,
          holds,
          subst (Backs m (xs ++ ys)) (ap (λ t. t ++ after) e₁ ∙ append_assoc front mid after) rest',
        ),
      )
    ]
