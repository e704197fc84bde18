-- ===== src/Local/Walks.antt =====
-- What `list_recursively` of lib/src/aio/local.rs sends.
use rdedup.Base.{
  ◌+◌, ◌<◌, ◌≤◌, ◌≡◌, refl, ◌∙◌, ap, Bool, true, false, Bool-cases, ltb, length, length-append, All,
  ErrorKind, Result, ok, err, panics, stuck, List, [], ◌∷◌, ◌++◌, append_assoc, ◌⊎◌, inl, inr,
  arith,
}
use rdedup.Nesting.{FilePath}
use rdedup.Local.{batches}

-- The files of a walk, and the errors of it, in order.
pub files_of : List (ErrorKind ⊎ (FilePath × Bool)) → List FilePath
files_of [] = []
files_of (inl e ∷ entries) = files_of entries
files_of (inr (path, false) ∷ entries) = files_of entries
files_of (inr (path, true) ∷ entries) = path ∷ files_of entries

pub errors_of : List (ErrorKind ⊎ (FilePath × Bool)) → List ErrorKind
errors_of [] = []
errors_of (inl e ∷ entries) = e ∷ errors_of entries
errors_of (inr file ∷ entries) = errors_of entries

-- The files that are sent, and the errors.
pub sent_files : List (Result (List FilePath)) → List FilePath
sent_files [] = []
sent_files (ok v ∷ sent) = v ++ sent_files sent
sent_files (err e ∷ sent) = sent_files sent
sent_files (panics ∷ sent) = sent_files sent
sent_files (stuck ∷ sent) = sent_files sent

pub sent_errors : List (Result (List FilePath)) → List ErrorKind
sent_errors [] = []
sent_errors (ok v ∷ sent) = sent_errors sent
sent_errors (err e ∷ sent) = e ∷ sent_errors sent
sent_errors (panics ∷ sent) = sent_errors sent
sent_errors (stuck ∷ sent) = sent_errors sent

-- A batch is an error, or 1 to 101 files.
pub Fits : Result (List FilePath) → Type 0
Fits (ok v) = (0 < length v) × (length v ≤ 101)
Fits (err e) = Unit
Fits panics = ⊥
Fits stuck = ⊥

record Sends (v : List FilePath) (entries : List (ErrorKind ⊎ (FilePath × Bool)))
    (sent : List (Result (List FilePath))) : Type 0 where
  files-eq : sent_files sent ≡ v ++ files_of entries
  errors-eq : sent_errors sent ≡ errors_of entries
  all_fit : All Fits sent

batches_lem :
    (entries : List (ErrorKind ⊎ (FilePath × Bool))) (v : List FilePath)
    → length v ≤ 100
    → Sends v entries (batches v entries)
unfolding batches files_of errors_of sent_files sent_errors Fits
batches_lem [] [] h = record { files-eq = refl; errors-eq = refl; all_fit = tt }
batches_lem [] (f ∷ v) h = record {
  files-eq = refl;
  errors-eq = refl;
  all_fit = ((omega arith, omega (arith, h)), tt);
}
batches_lem (inl e ∷ entries) v h =
    let rest = batches_lem entries v h in
    record {
      files-eq = rest.files-eq;
      errors-eq = ap (λ es. e ∷ es) rest.errors-eq;
      all_fit = (tt, rest.all_fit);
    }
batches_lem (inr (path, false) ∷ entries) v h =
    let rest = batches_lem entries v h in
    record { files-eq = rest.files-eq; errors-eq = rest.errors-eq; all_fit = rest.all_fit }
batches_lem (inr (path, true) ∷ entries) v h = elim (Bool-cases (ltb 100 (length v + 1))) [
  | inl e ↦
      let rest = batches_lem entries [] (omega arith) in
      rw (batches, e)
        (record {
          files-eq =
              ap (λ fs. (v ++ (path ∷ [])) ++ fs) rest.files-eq
              ∙ append_assoc v (path ∷ []) (files_of entries);
          errors-eq = rest.errors-eq;
          all_fit = (fits v path h, rest.all_fit);
        })
  | inr e ↦
      let rest = batches_lem entries (v ++ (path ∷ [])) (room v path e) in
      rw (batches, e)
        (record {
          files-eq = rest.files-eq ∙ append_assoc v (path ∷ []) (files_of entries);
          errors-eq = rest.errors-eq;
          all_fit = rest.all_fit;
        })
]
  where
    fits :
        (v : List FilePath) (path : FilePath)
        → length v ≤ 100
        → (0 < length (v ++ (path ∷ []))) × (length (v ++ (path ∷ [])) ≤ 101)
    fits v path h =
        let more = length-append v (path ∷ []) in (omega (arith, more), omega (arith, more, h))

    room :
        (v : List FilePath) (path : FilePath)
        → ltb 100 (length v + 1) ≡ false
        → length (v ++ (path ∷ [])) ≤ 100
    room v path e = ground (arith, e, length-append v (path ∷ []))

-- What is sent of a walk has its files, each once and in the order of the walk, and its errors in
-- their order; every batch has from 1 to 101 files.
pub batches-Sends :
    (entries : List (ErrorKind ⊎ (FilePath × Bool)))
    → (sent_files (batches [] entries) ≡ files_of entries)
      × (sent_errors (batches [] entries) ≡ errors_of entries)
      × All Fits (batches [] entries)
batches-Sends entries =
    let s = batches_lem entries [] (omega arith) in (s.files-eq, s.errors-eq, s.all_fit)
