-- ===== src/Token/Examples.antt =====
-- Runs of the token of the metadata server and concrete cases of the theorems on it.
use esp.Base.{All, List, [], ℕ, ◌≡◌, ◌≤◌, ◌*◌, refl, some, [], ◌∷◌, Str, bytes}
use esp.Base.Int.{pos, ◌+ℤ◌, ◌-ℤ◌}
use esp.StatusCode.Names.{ok_status, is_ok}
use esp.Token.{
  ServiceAccountToken, new_token, second, fetched, fetching, is_valid, set_access_token,
}
use esp.Token.Fetch.{ask, respond}
use esp.Token.Refresh.{fetches, asks, IsServed, refresh-once}
use esp.Token.Identity.{Reach, created, asked, idle-not_fetching}

abbrev server : Str
server = bytes "http://metadata"

-- A token that is fetched at 10 s and expires at 150 s.
abbrev fresh : ServiceAccountToken
fresh = record (new_token []) {
  state = fetched;
  access_token = record { token = bytes "t"; expiration_time = pos 150 };
}

-- The first response sets it.
fetched_token :
    (respond [] (10 * second) ok_status [] (some (bytes "t", pos 190)) (new_token [])).0 ≡ fresh
unfolding respond set_access_token is_ok ◌+ℤ◌ ◌-ℤ◌
fetched_token = refl

-- Three requests in the last minute: one fetch.
one_fetch : fetches server (100 * second ∷ 110 * second ∷ 120 * second ∷ []) fresh ≡ 1
unfolding fetches ask is_valid
one_fetch = refl

-- The first request starts none, the second one does.
abbrev four_times : List ℕ
four_times = 50 * second ∷ 100 * second ∷ 110 * second ∷ 120 * second ∷ []

refresh-once_example :
    (fetches server four_times fresh ≤ 1)
    × All IsServed (asks server four_times fresh).0
    × ((asks server four_times fresh).1.access_token ≡ fresh.access_token)
unfolding is_valid
refresh-once_example = refresh-once server four_times fresh refl (refl, (refl, (refl, (refl, tt))))

abbrev asked_twice : ServiceAccountToken
asked_twice = (ask server 2 (ask server 1 (new_token [])).0).0

two_in_flight : Reach server [] 2 asked_twice
unfolding ask is_valid
two_in_flight = asked 1 2 _ (asked 0 1 _ (created []))

two_fetching : asked_twice.state ≡ fetching
unfolding ask is_valid
two_fetching = refl

idle-not_fetching_example : 1 ≤ 2
idle-not_fetching_example = idle-not_fetching server 2 asked_twice two_in_flight two_fetching
