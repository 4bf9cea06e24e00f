-- ===== src/Detour/Threads/Mutex.antt =====
-- What a step of `Detour::toggle` of src/arch/detour.rs does to the mutex of `memory::POOL`.
use detour_rs.Base.{ℕ, ◌≡◌, refl, true, false, Option, none, some}
use detour_rs.Detour.Threads.{
  Target, Shared, Phase, Call, Move, call, lock, lock_poisoned, copy_panics, unlock,
}
use detour_rs.Detour.Threads.Stands.{inside}

pub data Effect (i : ℕ) (s u : Shared) (p p' : Phase) (c : Option Call) : Type 0 where
  apart : inside p ≡ false → inside p' ≡ false → u ≡ s → c ≡ none → Effect i s u p p' c
  takes :
      inside p ≡ false → inside p' ≡ true → s.owner ≡ none → u.owner ≡ some i → Effect i s u p p' c
  keeps : inside p ≡ true → inside p' ≡ true → u.owner ≡ s.owner → Effect i s u p p' c
  gives : inside p ≡ true → inside p' ≡ false → u.owner ≡ none → Effect i s u p p' c

pub Move-Effect :
    {target : Target} {i : ℕ} {s u : Shared} {p p' : Phase} {c : Option Call}
    → Move target i s p c u p'
    → Effect i s u p p' c
Move-Effect call = apart refl refl refl refl
Move-Effect (lock_poisoned free e) = apart refl refl refl refl
Move-Effect (lock free e) = takes refl refl free refl
Move-Effect (copy_panics e) = gives refl refl refl
Move-Effect unlock = gives refl refl refl
Move-Effect mv = keeps refl refl refl
