-- ===== src/Agent/Queue.antt =====
-- The loop of `accept_nomination_agent` (agent.rs) on the pending queue.
use cw_croncat.Base.{ℕ, zero, suc, ◌≡◌, refl, ◌∙◌, String, List, [], ◌∷◌, remove_at, drop}
use cw_croncat.Agent.{remove_through}

drop-remove_at : (n : ℕ) (xs : List String) → drop n (remove_at n xs) ≡ drop (suc n) xs
drop-remove_at zero [] = refl
drop-remove_at zero (x ∷ xs) = refl
drop-remove_at (suc n) [] = refl
drop-remove_at (suc n) (x ∷ xs) = drop-remove_at n xs

-- The loop of `accept_nomination_agent` drops everything up to a position.
pub remove_through-eq-drop : (n : ℕ) (xs : List String) → remove_through n xs ≡ drop (suc n) xs
unfolding remove_through
remove_through-eq-drop zero [] = refl
remove_through-eq-drop zero (x ∷ xs) = refl
remove_through-eq-drop (suc n) [] = remove_through-eq-drop n []
remove_through-eq-drop (suc n) (x ∷ xs) =
    remove_through-eq-drop n (x ∷ remove_at n xs) ∙ drop-remove_at n xs
