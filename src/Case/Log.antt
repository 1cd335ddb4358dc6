-- ===== src/Case/Log.antt =====
-- The end of a log, where `getNewItem` has put a new item.
use cellixjs.Base.{List, [], ◌∷◌, ◌++◌, ◌≡◌, refl, ap}
use cellixjs.Case.Parts.{update_last}

-- A change of the last item is one of the item that was put there.
pub update_last-append :
    {A : Type 0} (f : A → A) (x : A) (xs : List A) → update_last f (xs ++ x ∷ []) ≡ xs ++ f x ∷ []
update_last-append f x [] = refl
update_last-append f x (y ∷ []) = refl
update_last-append f x (y ∷ z ∷ r) = ap (◌∷◌ y) (update_last-append f x (z ∷ r))
