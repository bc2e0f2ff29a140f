-- ===== src/Tests/Stores.antt =====
-- A sample store with a gateway whose provider times out once, a storage that holds one text, and a
-- world outside that is the number of calls so far.
use pack_verse.Base.{
  ℕ, suc, true, false, none, some, [], ◌∷◌, ok, err, length, map, ◌==◌, ℕ_eq, if◌then◌else◌,
}
use pack_verse.Base.Int.{pos}
use pack_verse.Json.{null, end}
use pack_verse.Enums.{AssetStatus, StorageProvider}
use pack_verse.Errors.{llm, llm_timeout, class_name}
use pack_verse.Effects.{Act}
use pack_verse.Llm.Models.{
  LlmRequest, LlmResponse, EmbeddingRequest, EmbeddingResponse, Provider, MessageRole,
}
use pack_verse.Llm.Schemas.{GenerateRequest}
use pack_verse.Llm.Routing.{LlmSettings}
use pack_verse.Llm.Retry.{Waiting}
use pack_verse.Llm.Gateway.{Libraries, Gateway}
use pack_verse.Rag.Extraction.{TextLibraries}
use pack_verse.Services.Row.{Asset}
use pack_verse.Services.Storage.{Storage}
use pack_verse.Services.Ingestion.{Documents}

abbrev pub sample_settings : LlmSettings
sample_settings = record {
  llm_allowed_providers_list = "openai" ∷ "fake" ∷ [];
  llm_default_provider = some "fake";
  llm_default_model = none;
  anthropic_default_model = none;
  openai_default_model = none;
  llm_model_aliases_map = ("fake", ("fast", "fake-1") ∷ []) ∷ [];
  llm_pricing_map = [];
  llm_max_retries = pos 2;
  llm_max_output_tokens = pos 4096;
}

abbrev pub sample_waiting : Waiting ℕ
sample_waiting = record { uniform = λ base n. (0, n); sleep = λ delay n. n }

abbrev pub sample_libraries : Libraries ℕ
sample_libraries = record {
  waiting = sample_waiting;
  loads = λ text. some null;
  conforms = λ value schema. true;
  decimal = λ text. some 1;
  text = class_name;
}

abbrev pub sample_response : LlmRequest → LlmResponse
sample_response request = record {
  request_id = request.request_id;
  provider = "fake";
  model = request.model;
  content = "hello";
  finish_reason = "stop";
  usage = record { input_tokens = 3; output_tokens = 4 };
  latency = 5000;
  created_at = 0;
  provider_request_id = none;
  estimated_cost_usd = none;
  tool_calls = none;
  metadata = end;
}

abbrev pub sample_vectors : EmbeddingRequest → EmbeddingResponse ℕ
sample_vectors request = record {
  request_id = request.request_id;
  provider = "fake";
  model = request.model;
  embeddings = map (λ text. 7) request.input;
  usage = record { input_tokens = 3; output_tokens = 0 };
  latency = 5000;
  created_at = 0;
  provider_request_id = none;
  estimated_cost_usd = none;
  metadata = end;
}

-- the first call times out
abbrev pub after_timeout : {A : Type 0} → A → Act ℕ A
after_timeout a n = if n == 0 then (err (llm (llm_timeout "fake")), suc n) else (ok a, suc n)

abbrev pub sample_provider : Provider ℕ ℕ
sample_provider = record {
  generate = λ request. after_timeout (sample_response request);
  embed = λ request. after_timeout (sample_vectors request);
  health_check = λ n. (err (llm (llm_timeout "fake")), suc n);
}

abbrev pub sample_gateway : Gateway ℕ ℕ
sample_gateway = record {
  providers = ("fake", sample_provider) ∷ [];
  settings = sample_settings;
  retry_base_delay = 500000;
}

abbrev pub sample_request : LlmRequest
sample_request = record {
  request_id = 1;
  model = "fast";
  messages = record { role = MessageRole.user; content = "hi" } ∷ [];
  provider = none;
  system_prompt = none;
  temperature = none;
  max_tokens = some (pos 10);
  timeout_seconds = none;
  response_format = none;
  tools = none;
  metadata = end;
}

abbrev pub sample_payload : GenerateRequest
sample_payload = record {
  provider = none;
  model = "fast";
  system_prompt = none;
  messages = record { role = MessageRole.user; content = "hi" } ∷ [];
  temperature = none;
  max_tokens = none;
  response_format = none;
  tools = none;
  metadata = end;
}

abbrev pub sample_storage : Storage ℕ
sample_storage = record {
  store = λ key content content_type n. (
    ok (record {
      key = key;
      size_bytes = length content;
      content_type = some content_type;
      etag = none;
    }),
    suc n,
  );
  open_object = λ key n. (ok (104 ∷ 105 ∷ []), suc n);
  delete = λ key n. (ok tt, suc n);
  get_download_url = λ key n. (ok none, n);
}

abbrev pub sample_texts : TextLibraries
sample_texts = record {
  Reader = Unit;
  decode_utf8 = λ bytes. some "hello";
  open_pdf = λ bytes. none;
  is_encrypted = λ reader. some false;
  decrypt_empty = λ reader. none;
  page_texts = λ reader. none;
}

abbrev pub sample_documents : Documents
sample_documents = record { texts = sample_texts; is_space = λ c. false; sha256 = λ text. "hash" }

abbrev pub sample_asset : Asset
sample_asset = record {
  id = 30;
  product_id = 40;
  asset_type = "doc";
  filename = "a.txt";
  storage_key = "products/40/30/a.txt";
  mime_type = "text/plain";
  size_bytes = 2;
  checksum = "sum";
  original_filename = some "a.txt";
  content_type = some "text/plain";
  etag = none;
  storage_backend = StorageProvider.local;
  status = AssetStatus.available;
  uploaded_by_user_id = some 1;
  deleted_at = none;
}
