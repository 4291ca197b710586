-- ===== src/RateLimit/Examples.antt =====
-- The limiter at concrete inputs.
use ai_kubernetes_troublesho.Prelude.{◌≡◌, refl, true, false, List, [], ◌∷◌, ltb, arith}
use ai_kubernetes_troublesho.Prelude.Dict.{get, put}
use ai_kubernetes_troublesho.RateLimit.{window_of, hit, remaining_of}
use ai_kubernetes_troublesho.RateLimit.Window.{Hit, replay, hits_of, fresh, hit_exact}

-- three hits of one minute, the first of another caller, and one of the minute before
abbrev history : List Hit
history =
    record { key = "tenant:acme"; limit = 9; now = 59000 }
    ∷ record { key = "tenant:globex"; limit = 9; now = 61000 }
    ∷ record { key = "tenant:acme"; limit = 9; now = 62000 }
    ∷ []

hit_exact_example :
    (hit "tenant:acme" 2 90500 (replay history (fresh 60))).0
    ≡ ltb (hits_of 60 ("tenant:acme", window_of 60 90500) history) 2
hit_exact_example = hit_exact 60 history "tenant:acme" 2 90500 (omega arith)

second_is_allowed : (hit "tenant:acme" 2 90500 (replay history (fresh 60))).0 ≡ true
unfolding hit replay get put
second_is_allowed = refl

third_is_refused : (hit "tenant:acme" 1 90500 (replay history (fresh 60))).0 ≡ false
unfolding hit replay get put
third_is_refused = refl

seconds_left : remaining_of 60 90500 ≡ 29
unfolding remaining_of
seconds_left = refl
