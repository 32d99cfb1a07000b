-- ===== src/Router/Examples.antt =====
-- A run of mcp/core/GlobalRequestRouter.ts at concrete inputs.
use peta_core.Prelude.Dict
use peta_core.Json.{codes}
use peta_core.Prelude.{
  string_eq, text_eq, ℕ, String, Bool, List, ◌≡◌, refl, true, ◌↔◌, false, [], not, ◌==◌, ◌∷◌,
}
use peta_core.Router.{Sent, sent_to, broadcast}
use peta_core.Router.Delivered.{AreDistinct}
use peta_core.Router.Once.{broadcast_once}
use mathlib.Core.List.{Memᴰ}

abbrev key : List ℕ
key = codes "tools_changed_files_5000"

abbrev noted : Sent
noted = ("a", key ∷ []) ∷ []

abbrev can_access : String → Bool
can_access i = not (i == "c")

abbrev throws : String → Bool
throws i = false

abbrev ids : List String
ids = "a" ∷ "b" ∷ "c" ∷ "d" ∷ []

ids-AreDistinct : AreDistinct ids
ids-AreDistinct = ((refl, (refl, (refl, tt))), ((refl, (refl, tt)), ((refl, tt), (tt, tt))))

-- "a" was sent it already, and "c" cannot access the server.
sent : (broadcast can_access throws key ids noted).1 ≡ "b" ∷ "d" ∷ []
unfolding broadcast Dict.get Dict.set
sent = refl

broadcast_once_example :
    (Memᴰ "b" (broadcast can_access throws key ids noted).1 ↔ (
      Memᴰ "b" ids
      × (can_access "b" ≡ true)
      × (throws "b" ≡ false)
      × (Memᴰ key (sent_to "b" noted) → ⊥)))
    × ((Memᴰ "b" (broadcast can_access throws key ids noted).1
          × Memᴰ "b"
              (broadcast can_access throws key ids (broadcast can_access throws key ids noted).0).1)
        → ⊥)
broadcast_once_example =
    broadcast_once can_access throws can_access throws key ids ids noted "b" ids-AreDistinct
      ids-AreDistinct
