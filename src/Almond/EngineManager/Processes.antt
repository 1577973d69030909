-- ===== src/Almond/EngineManager/Processes.antt =====
-- The table of the processes, by their ids.
use genie_cloud.Base.{
  ℕ, ◌≡◌, refl, sym, ap, ◌∙◌, subst, true, List, [], ◌∷◌, some, if◌then◌else◌, ==_iff, text_eq_refl,
  text_eq_sound, Bool-cases, inl, inr,
}
use genie_cloud.Almond.EngineProcess.{ProcessId, user_process, shared_process}
use genie_cloud.Almond.EngineManager.{id_eq, find_process, put_process}

id_eq_refl : (k : ProcessId) → id_eq k k ≡ true
id_eq_refl (user_process u) = (==_iff u u).1 refl
id_eq_refl (shared_process t) = text_eq_refl t

id_eq_sound : (j k : ProcessId) → id_eq j k ≡ true → j ≡ k
id_eq_sound (user_process a) (user_process b) h = ap user_process ((==_iff a b).0 h)
id_eq_sound (shared_process a) (shared_process b) h = ap shared_process (text_eq_sound a b h)
id_eq_sound (user_process a) (shared_process b) h = absurd cc
id_eq_sound (shared_process a) (user_process b) h = absurd cc

-- What stands under any id once one was put.
pub find_process-put_process :
    (k o : ProcessId) (r : ℕ) (m : List (ProcessId × ℕ))
    → find_process o (put_process k r m) ≡ (if id_eq k o then some r else find_process o m)
unfolding find_process put_process
find_process-put_process k o r [] = refl
find_process-put_process k o r ((j, q) ∷ m) = elim (Bool-cases (id_eq j k)) [
  | inl same ↦
      subst
        (λ i.
          find_process o (put_process k r ((i, q) ∷ m))
          ≡ (if id_eq k o then some r else find_process o ((i, q) ∷ m)))
        (sym (id_eq_sound j k same))
        (rw (id_eq_refl k)
          (elim (Bool-cases (id_eq k o)) [ inl mine ↦ rw mine refl | inr other ↦ rw other refl ]))
  | inr apart ↦ rw apart (elim (Bool-cases (id_eq j o)) [
    | inl theirs ↦ elim (Bool-cases (id_eq k o)) [
      | inl mine ↦
          let one : j ≡ k = id_eq_sound j o theirs ∙ sym (id_eq_sound k o mine) in
          let equal : id_eq j k ≡ true = subst (λ i. id_eq j i ≡ true) one (id_eq_refl j) in
          absurd cc
      | inr other ↦ rw (theirs, other) refl
    ]
    | inr other ↦ rw other (find_process-put_process k o r m)
  ])
]
