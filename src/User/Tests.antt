-- ===== src/User/Tests.antt =====
-- The user service at concrete inputs.
use event_booking_system_mic.Common.{◌∷◌, [], refl}
use event_booking_system_mic.User.Accounts.{Registers, create_user-Registers}
use event_booking_system_mic.User.{UserRecord, NewUser, Spelling, create_user}
use event_booking_system_mic.Sql.ListTables.{list_tables}

-- Addresses are clean already.
abbrev plain_spelling : Spelling
plain_spelling = record { trim = λ e. e; to_lower_case = λ e. e }

abbrev ada : NewUser
ada = record { name = "Ada"; email = 5 }

abbrev ada_row : UserRecord
ada_row = record { id = 1; name = "Ada"; email = 5; created_at = 10; updated_at = 10 }

create_user-Registers_example :
    Registers list_tables plain_spelling 20 2 ada
      (ada_row ∷ [])
      (create_user list_tables plain_spelling 20 2 ada (ada_row ∷ []))
create_user-Registers_example =
    create_user-Registers list_tables plain_spelling (λ e. refl) 20 2 ada (ada_row ∷ [])
