-- ===== src/Cache/Provider/Transparent.antt =====
-- A cache that says what the provider would say cannot be told from the provider.
use ai_kubernetes_troublesho.Prelude.{
  ℕ, ◌≡◌, String, Bool, Option, none, some, List, [], ◌∷◌, string_eq,
}
use ai_kubernetes_troublesho.Prelude.Dict.{Dict, get}
use ai_kubernetes_troublesho.Cache.{ProviderResult, CacheEntry, to_result}
use ai_kubernetes_troublesho.Cache.Provider.{Slots}

module _ {J Q : Type 0} (key : Q → String) (loads : String → J)
    (answer : Q → ProviderResult J) where
  -- Every entry says what the provider would say to every request with its key.
  abbrev pub IsFaithful : Dict String (CacheEntry J) → Type 0
  IsFaithful entries =
      (q : Q) (entry : CacheEntry J)
      → get (key q) entries ≡ some entry
      → to_result loads entry ≡ answer q

  module _ (dumps : J → Option String) (command_of : J → String) (read : Bool)
      (now fetched_at : ℕ) where
    -- Each slot holds what the provider would answer to its request, or nothing.
    abbrev Matches : Slots J → List Q → Type 0
    Matches [] [] = Unit
    Matches (some result ∷ slots) (q ∷ requests) = (result ≡ answer q) × Matches slots requests
    Matches (none ∷ slots) (q ∷ requests) = Matches slots requests
    Matches [] (q ∷ requests) = ⊥
    Matches (slot ∷ slots) [] = ⊥
