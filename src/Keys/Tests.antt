-- ===== src/Keys/Tests.antt =====
-- A concrete key.
use go_drive.Base.{some, List, [], ◌∷◌, ◌≡◌, refl, ◌↔◌, includes, true, false}
use go_drive.Api.{resolved}
use go_drive.Keys.{CreateKeyData, S3Key, Action, acts, initial, answered_create}
use go_drive.Keys as Keys
use go_drive.Keys.Prompt.{build_ai_prompt}
use go_drive.Keys.Secret.{IsNew, created_data_iff}

abbrev laptop : S3Key
laptop = record { id = "k1"; access_key_id = "AK1"; name = "laptop"; permissions = "readwrite" }

abbrev fresh_key : CreateKeyData
fresh_key = record { key = laptop; access_key_id = "AK1"; secret_access_key = "s3cr3t" }

abbrev visit : List Action
visit =
    Keys.press_create
    ∷ Keys.type_name "laptop"
    ∷ answered_create (resolved fresh_key)
    ∷ Keys.press_delete laptop
    ∷ []

shown : (acts initial visit).created_data ≡ some fresh_key
unfolding acts Keys.act
shown = refl

created_data_iff_example :
    ((acts initial visit).created_data ≡ some fresh_key) ↔ IsNew fresh_key visit
created_data_iff_example = created_data_iff fresh_key visit

-- Only the prompt of a development server speaks of its port.
noted :
    (includes (build_ai_prompt "https://s3.example.org" "acme" true) ":8081" ≡ true)
    × (includes (build_ai_prompt "https://s3.example.org" "acme" false) ":8081" ≡ false)
unfolding build_ai_prompt includes
noted = (refl, refl)
