-- ===== src/Client/Session.antt =====
-- The console of the client (`Run`, `showMainMenu` and `handleClientOperations` of client/client.go, and
-- client/ui/ui_manager.go): the lines that the user types are read one by one. A read at the end of
-- the input gives the empty text, as `scanner.Text` does once `scanner.Scan` has failed.
pub mod Ends
mod Tests
use distributed_systems_iiit.Common.{
  ℕ, zero, suc, String, Bool, true, false, Option, none, some, List, [], ◌∷◌, ◌==◌, string_key,
  if◌then◌else◌,
}
use distributed_systems_iiit.Client.Login.{is_authenticated}
use distributed_systems_iiit.Client.App.{
  Platform, ClientApp, Shown, not_authenticated, invalid_option, Typed, nothing, authenticate_user,
  run_operation,
}

abbrev pub Input : Type 0
Input = List String

-- `GetUserInput`, with the lines that are left.
abbrev pub get_user_input : Input → String × Input
get_user_input [] = ("", [])
get_user_input (line ∷ rest) = (line, rest)

-- What an operation asks for, read where the source reads it.
abbrev pub blank : String → String → ℕ → Typed
blank client_name operation now = record {
  client_name = client_name;
  password = "";
  operation = operation;
  amount = "";
  transfer_choice = "";
  receiver = "";
  transaction_id = "";
  now = now;
}

-- Whether the main menu is shown again.
pub data Turn : Type 0 where
  goes_on ends : Turn

module _ {W : Type 0} (platform : Platform W) (clock : Input → ℕ) where
  open platform use {parse_amount}

  -- The amount, then the choice if the amount is a number, then the receiver of a transfer.
  unfoldable pub read_payment : Typed → Input → Typed × Input
  read_payment t lines =
      let (amount, lines1) = get_user_input lines in
      let (choice, lines2) = get_user_input lines1 in
      let (receiver, lines3) = get_user_input lines2 in
      elim (parse_amount amount) [
        | none ↦ (record t { amount = amount }, lines1)
        | some _ ↦
            let t' = record t { amount = amount; transfer_choice = choice } in
            if choice == "2" then (record t' { receiver = receiver }, lines3) else (t', lines2)
      ]

  unfoldable pub read_operation : String → Input → Typed × Input
  unfolding read_payment
  read_operation client_name lines =
      let (operation, rest) = get_user_input lines in
      let t = blank client_name operation (clock rest) in
      let (transaction_id, rest') = get_user_input rest in
      if operation == "2"
      then read_payment t rest
      else if operation == "4"
      then (record t { transaction_id = transaction_id }, rest')
      else (t, rest)

  -- The operations menu of a client that is logged in.
  unfoldable pub run_menu : String → Input → ClientApp W → (ClientApp W × Shown) × Input
  unfolding read_operation run_operation
  run_menu client_name lines app =
      let (t, rest) = read_operation client_name lines in (run_operation platform t app, rest)

  -- `handleClientOperations`
  unfoldable pub visit : Input → ClientApp W → (ClientApp W × Shown) × Input
  unfolding run_menu authenticate_user is_authenticated
  visit lines app =
      let (client_name, lines1) = get_user_input lines in
      let (password, lines2) = get_user_input lines1 in
      if is_authenticated client_name app.auth_manager
      then run_menu client_name lines1 app
      else let (app', accepted) = authenticate_user platform client_name password app in
        if accepted then run_menu client_name lines2 app' else ((app', not_authenticated), lines2)

  -- `showMainMenu`
  unfoldable pub show_main_menu : Input → ClientApp W → ((ClientApp W × Shown) × Input) × Turn
  unfolding visit
  show_main_menu lines app =
      let (option, rest) = get_user_input lines in
      if option == "1"
      then (visit rest app, goes_on)
      else if option == "2"
      then (((app, nothing), rest), ends)
      else (((app, invalid_option), rest), goes_on)

  -- `Run`: the state at the end, what was shown and the lines that are left; `none` where the turns
  -- are used up.
  unfoldable pub run_session : ℕ → Input → ClientApp W → Option ((ClientApp W × List Shown) × Input)
  unfolding show_main_menu
  run_session zero lines app = none
  run_session (suc turns) lines app =
      let (((app', shown), rest), turn) = show_main_menu lines app in
      let later = run_session turns rest app' in
      elim turn [
        | ends ↦ some ((app', []), rest)
        | goes_on ↦ elim later [
          | none ↦ none
          | some ((app'', more), left) ↦ some ((app'', shown ∷ more), left)
        ]
      ]
