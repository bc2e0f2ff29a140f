-- ===== src/Tests/Services.antt =====
-- The services on the sample store.
use pack_verse.Base.{ℕ, ◌+◌, ◌≤◌, ◌≡◌, ◌↔◌, ◌⊎◌, refl, none, some, [], length, ok, false}
use pack_verse.Base.Int.{pos}
use pack_verse.Base.Table.{find}
use pack_verse.Enums.{UserRole}
use pack_verse.Runtime.Service.{User}
use pack_verse.Json.{end}
use pack_verse.Services.RequestRow.{new_record}
use pack_verse.Services.Filename.{chars, max_filename_length, sanitize_filename}
use pack_verse.Services.Filename.Safe.{Safe, Begins, sanitize_filename-Safe}
use pack_verse.Services.Ingestion.{ingest_asset}
use pack_verse.Services.Ingestion.Outcome.{Ingested, ingest_asset-Ingested}
use pack_verse.Services.LlmService.{generate_and_persist, get_request}
use pack_verse.Services.LlmService.Audit.{Audited}
use pack_verse.Services.LlmService.Outcome.{
  measured_generate, generate_and_persist-Audited, get_request_iff,
}
use pack_verse.Services.AssetService.{upload_asset, delete_asset, get_download_payload}
use pack_verse.Services.AssetService.Outcome.{
  Uploaded, Removed, Offered, upload_asset-Uploaded, delete_asset-Removed,
  get_download_payload-Offered,
}
use pack_verse.Services.Retrieval.{search}
use pack_verse.Services.Retrieval.Outcome.{Nearest, search-Nearest}
use pack_verse.Services.Accounts.{register_user, authenticate_user}
use pack_verse.Services.Accounts.Outcome.{
  Registered, LoggedIn, register_user-Registered, authenticate_user-LoggedIn,
}
use pack_verse.Tests.Stores.{
  sample_settings, sample_libraries, sample_gateway, sample_payload, sample_storage,
  sample_documents,
}
use pack_verse.Tests.Rows.{
  sample_store, sample_upload, sample_asset_settings, sample_passwords, alone,
}

abbrev count_up : ℕ → ℕ
count_up n = 100 + n

abbrev space : ℕ → ℕ → ℕ
space a b = a

ingest_asset-Ingested_example :
    Ingested sample_documents sample_storage sample_libraries sample_gateway count_up alone 30
      "fast" none
      (pos 3)
      (pos 1)
      sample_store
      (ingest_asset sample_documents sample_storage sample_libraries sample_gateway count_up alone
        30 "fast" none
        (pos 3)
        (pos 1)
        sample_store)
ingest_asset-Ingested_example =
    ingest_asset-Ingested sample_documents sample_storage sample_libraries sample_gateway count_up
      alone 30 "fast" none (pos 3) (pos 1) sample_store

generate_and_persist-Audited_example :
    let (r, t) =
      generate_and_persist count_up count_up sample_libraries sample_gateway sample_settings
        sample_payload 1 sample_store in
    Audited measured_generate 100 1 [] r t.llm_requests
generate_and_persist-Audited_example =
    generate_and_persist-Audited count_up count_up sample_libraries sample_gateway sample_settings
      sample_payload 1 sample_store refl

abbrev viewer : User
viewer = record { id = 1; role = UserRole.viewer }

get_request_iff_example :
    let row = new_record 5 1 "fake" "m" end in
    (get_request 5 viewer sample_store ≡ (ok row, sample_store)) ↔ (
      (find (λ r. r.id) 5 sample_store.llm_requests ≡ some row)
      × ((viewer.role ≡ UserRole.admin) ⊎ (row.user_id ≡ some 1)))
get_request_iff_example = get_request_iff 5 viewer sample_store (new_record 5 1 "fake" "m" end)

upload_asset-Uploaded_example :
    Uploaded sample_storage alone sample_upload sample_store
      (upload_asset sample_storage sample_asset_settings count_up alone sample_upload sample_store)
upload_asset-Uploaded_example =
    upload_asset-Uploaded sample_storage sample_asset_settings count_up alone sample_upload
      sample_store

delete_asset-Removed_example :
    Removed sample_storage 30 sample_store (delete_asset sample_storage count_up 30 sample_store)
delete_asset-Removed_example = delete_asset-Removed sample_storage count_up 30 sample_store

get_download_payload-Offered_example :
    Offered sample_storage 30 sample_store (get_download_payload sample_storage 30 sample_store)
get_download_payload-Offered_example = get_download_payload-Offered sample_storage 30 sample_store

sanitize_filename-Safe_example :
    let name = sanitize_filename (λ cs. cs) (chars "../a b.txt") in
    Safe name × Begins name × (length name ≤ max_filename_length)
sanitize_filename-Safe_example = sanitize_filename-Safe (λ cs. cs) (chars "../a b.txt")

search-Nearest_example :
    Nearest sample_libraries sample_gateway
      (λ c. false)
      1000
      space
      count_up
      "hi"
      "fast"
      none
      (pos 3)
      none
      sample_store
      (search sample_libraries sample_gateway
        (λ c. false)
        1000
        space
        count_up
        "hi"
        "fast"
        none
        (pos 3)
        none
        sample_store)
search-Nearest_example =
    search-Nearest sample_libraries sample_gateway (λ c. false) 1000 space count_up "hi" "fast" none
      (pos 3) none sample_store

authenticate_user-LoggedIn_example :
    LoggedIn sample_passwords "a@b.c" "secret" sample_store
      (authenticate_user sample_passwords "a@b.c" "secret" sample_store)
authenticate_user-LoggedIn_example =
    authenticate_user-LoggedIn sample_passwords "a@b.c" "secret" sample_store

register_user-Registered_example :
    Registered sample_passwords
      (record { email = "d@e.f"; password = "p"; full_name = "D" })
      sample_store
      (register_user sample_passwords count_up
        (record { email = "d@e.f"; password = "p"; full_name = "D" })
        sample_store)
register_user-Registered_example =
    register_user-Registered sample_passwords count_up
      (record { email = "d@e.f"; password = "p"; full_name = "D" }) sample_store (tt, tt)
