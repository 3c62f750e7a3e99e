-- ===== src/Idempotency/Tests.antt =====
-- The service at concrete inputs, over a store that fails.
use g_lm.Prelude.{ℕ, ◌≡◌, refl, none, some, [], any}
use g_lm.Prelude.Int.{pos}
use g_lm.Prelude.Texts.{lit, text_eq}
use g_lm.Model.Chat.{ChatCompletionResponse}
use g_lm.Idempotency.{Digest, RecordStore, Service, new_service, get, save}
use g_lm.Idempotency.Caching.{get-save}

abbrev answer : ChatCompletionResponse
answer = record {
  id = lit "c1";
  object = lit "chat.completion";
  created = pos 0;
  model = lit "m1";
  choices = [];
  usage = none;
}

abbrev by_model : Digest
by_model = record { marshal = λ r. r.model; sha256 = λ t. t }

abbrev failing : RecordStore ℕ
failing = record {
  create_idempotency_record = λ r s. (s, none);
  get_idempotency_record = λ t k s. none;
}

abbrev service : Service ℕ
unfolding new_service
service = new_service 0 100

get-save_example :
    get 60
      (lit "acme")
      (lit "turn:1")
      (save failing by_model 10 (lit "acme") (lit "turn:1") (lit "h") answer service).0
    ≡ some (answer, lit "h")
unfolding text_eq new_service any
get-save_example =
    get-save failing by_model 10 60 (lit "acme") (lit "turn:1") (lit "h") (lit "acme")
      (lit "turn:1") answer service refl refl
