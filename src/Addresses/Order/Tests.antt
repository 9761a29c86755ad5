-- ===== src/Addresses/Order/Tests.antt =====
-- Two addresses of the length 2 and one of the length 3, and the empty address, which is before itself.
use uav_router.Base.{◌≡◌, refl, true, none, some, [], ◌∷◌, Bytes}
use uav_router.Addresses.Order.{less, memcmp_lt, less_trans}

less_trans_example : less (some (2 ∷ 1 ∷ [])) (some (1 ∷ 1 ∷ 1 ∷ [])) ≡ true
unfolding less memcmp_lt
less_trans_example = less_trans (2 ∷ 1 ∷ []) (2 ∷ 7 ∷ []) (1 ∷ 1 ∷ 1 ∷ []) refl refl

abbrev port_7 : Bytes
port_7 = 2 ∷ 7 ∷ []

abbrev port_7_again : Bytes
port_7_again = 2 ∷ 7 ∷ []

empty_less_itself : less none none ≡ true
unfolding less
empty_less_itself = refl
