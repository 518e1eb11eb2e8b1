-- ===== src/Client/Session/Tests.antt =====
-- What is typed at an offline client.
use distributed_systems_iiit.Common.{ℕ, ◌≡◌, refl, none, some, List, [], ◌∷◌}
use distributed_systems_iiit.Common.Lists.{length}
use distributed_systems_iiit.Client.App.{
  ClientApp, Shown, invalid_option, invalid_operation, authenticate_user, run_operation,
}
use distributed_systems_iiit.Client.App.Tests.{offline, app}
use distributed_systems_iiit.Client.Login.{is_authenticated, authenticate_users}
use distributed_systems_iiit.Client.Processor.{store_credentials}
use distributed_systems_iiit.Client.Session.{
  Input, show_main_menu, visit, run_menu, read_operation, run_session,
}
use distributed_systems_iiit.Common.Dict.{lookup, insert}

abbrev clock : Input → ℕ
clock lines = length lines

-- A wrong option, a login with a guess and a wrong operation, and the end.
abbrev typed : Input
typed = "9" ∷ "1" ∷ "Carol" ∷ "a guess" ∷ "7" ∷ "2" ∷ []

shown :
    (r : (ClientApp ℕ × List Shown) × Input) × (run_session offline clock 3 typed app ≡ some r)
    × (r.0.1 ≡ invalid_option ∷ invalid_operation ∷ [])
unfolding run_session show_main_menu visit run_menu read_operation run_operation authenticate_user
    is_authenticated authenticate_users store_credentials lookup insert
shown = (_, refl, refl)

-- The input ends before the last menu.
unfinished : run_session offline clock 100 ("9" ∷ []) app ≡ none
unfolding run_session show_main_menu
unfinished = refl
