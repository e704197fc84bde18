-- ===== src/Repository/Rows.antt =====
-- Rows of generations, newest first.
use rdedup.Base.{◌≡◌, ◌≢◌, refl, sym, subst, inl, inr, Bytes, All, List, [], ◌∷◌, ◌++◌}
use rdedup.Store.{In}

-- No generation stands twice in a list.
abbrev pub Distinct : List Bytes → Type 0
Distinct [] = Unit
Distinct (g ∷ gens) = ((h : Bytes) → In h gens → h ≢ g) × Distinct gens

pub In-middle : (g : Bytes) (xs ys : List Bytes) → In g (xs ++ (g ∷ ys))
In-middle g [] ys = inl refl
In-middle g (x ∷ xs) ys = inr (In-middle g xs ys)

-- What stands before an element of a list without doubles is another element.
pub Distinct-before :
    (g : Bytes) (xs ys : List Bytes)
    → Distinct (xs ++ (g ∷ ys))
    → All (λ h. In h (xs ++ (g ∷ ys)) × (h ≢ g)) xs
Distinct-before g [] ys d = tt
Distinct-before g (x ∷ xs) ys (apart, d) =
    ((inl refl, λ e. apart g (In-middle g xs ys) (sym e)), weaken xs (Distinct-before g xs ys d))
  where
    weaken :
        (zs : List Bytes)
        → All (λ h. In h (xs ++ (g ∷ ys)) × (h ≢ g)) zs
        → All (λ h. In h (x ∷ (xs ++ (g ∷ ys))) × (h ≢ g)) zs
    weaken [] a = tt
    weaken (z ∷ zs) ((i, n), a) = ((inr i, n), weaken zs a)

pub All-In-map :
    {Q Q' : Bytes → Type 0} → ((h : Bytes) → Q h → Q' h) → (xs : List Bytes) → All Q xs → All Q' xs
All-In-map f [] a = tt
All-In-map f (x ∷ xs) a = (f x a.0, All-In-map f xs a.1)

-- A row of generations begins with its first one, up to whichever it is cut.
pub starts :
    (cur gen : Bytes) (older newer rest : List Bytes)
    → cur ∷ older ≡ newer ++ (gen ∷ rest)
    → (more : List Bytes) × (newer ++ (gen ∷ []) ≡ cur ∷ more)
starts cur gen older [] rest e = ([], cc e)
starts cur gen older (h ∷ newer) rest e = (newer ++ (gen ∷ []), cc e)

pub starts_other :
    (cur gen : Bytes) (older newer rest : List Bytes)
    → cur ∷ older ≡ newer ++ (gen ∷ rest)
    → gen ≢ cur
    → (more : List Bytes) × (newer ≡ cur ∷ more)
starts_other cur gen older [] rest e differ = absurd (differ (cc e))
starts_other cur gen older (h ∷ newer) rest e differ = (newer, cc e)

pub All-at : (Q : Bytes → Type 0) (g : Bytes) (xs : List Bytes) → All Q xs → In g xs → Q g
All-at Q g [] a i = absurd i
All-at Q g (x ∷ xs) a (inl e) = subst Q e a.0
All-at Q g (x ∷ xs) a (inr i) = All-at Q g xs a.1 i

not_nil : (xs : List Bytes) (g : Bytes) (ys : List Bytes) → xs ++ (g ∷ ys) ≡ [] → ⊥
not_nil [] g ys e = cc e
not_nil (x ∷ xs) g ys e = cc e

-- A generation that is not the last one stays when the last one goes.
pub drop_last :
    (gen last : Bytes) (newer older front : List Bytes)
    → newer ++ (gen ∷ older) ≡ front ++ (last ∷ [])
    → gen ≢ last
    → (rest : List Bytes) × (front ≡ newer ++ (gen ∷ rest))
drop_last gen last [] older [] e differ = absurd (differ (cc e))
drop_last gen last [] older (f ∷ front) e differ = (front, cc e)
drop_last gen last (h ∷ newer) older [] e differ = absurd (not_nil newer gen older (cc e))
drop_last gen last (h ∷ newer) older (f ∷ front) e differ =
    let (rest, same) = drop_last gen last newer older front (cc e) differ in (rest, cc (same, e))

pub In-prefix :
    (h gen : Bytes) (newer rest : List Bytes)
    → In h (newer ++ (gen ∷ []))
    → In h (newer ++ (gen ∷ rest))
In-prefix h gen [] rest (inl e) = inl e
In-prefix h gen [] rest (inr i) = absurd i
In-prefix h gen (x ∷ newer) rest (inl e) = inl e
In-prefix h gen (x ∷ newer) rest (inr i) = inr (In-prefix h gen newer rest i)

pub In-front : (h last : Bytes) (front : List Bytes) → In h front → In h (front ++ (last ∷ []))
In-front h last [] i = absurd i
In-front h last (x ∷ front) (inl e) = inl e
In-front h last (x ∷ front) (inr i) = inr (In-front h last front i)
