-- ===== src/Program.antt =====
-- A handler as a program that calls the API server, MinIO, the event recorder, the clock and the
-- random source, and goes on from whatever they reply.
pub mod Contract
pub mod Run
pub mod Relies
use minio_bucket_controller.Base.{ℕ, String, Bool, List}
use minio_bucket_controller.Errors.{Result}
use minio_bucket_controller.Api.Meta.{ObjectMeta, NamespacedName}
use minio_bucket_controller.Api.Bucket.{Bucket}
use minio_bucket_controller.Api.Provider.{BucketProvider}
use minio_bucket_controller.Api.Account.{BucketServiceAccount}
use minio_bucket_controller.Api.Secret.{Secret}
use minio_bucket_controller.Api.Object.{Object}
use minio_bucket_controller.Mc.Client.{Client}
use minio_bucket_controller.Base.Dict.{Dict}
use minio_bucket_controller.Manager.{Kind, Reconciler, ManagerOptions}

pub data EventType : Type 0 where
  normal warning : EventType

-- `madmin.Credentials`
pub record Credentials : Type 0 where
  pub access_key : String
  pub secret_key : String

-- The methods of the clients that the controllers call, with their arguments.
pub data Call : Type 0 where
  -- client.Client: Get and List
  get_bucket : NamespacedName → Call
  get_provider : NamespacedName → Call
  get_account : NamespacedName → Call
  get_secret : NamespacedName → Call
  list_buckets : String → String → Call
  list_providers : Call
  list_accounts : Call
  -- client.Client: Create, Update, Status().Update and Delete
  create_account : BucketServiceAccount → Call
  create_secret : Secret → Call
  update_bucket : Bucket → Call
  update_account : BucketServiceAccount → Call
  update_secret : Secret → Call
  update_bucket_status : Bucket → Call
  update_account_status : BucketServiceAccount → Call
  update_provider_status : BucketProvider → Call
  delete_secret : ObjectMeta → Call
  delete_account : BucketServiceAccount → Call
  -- minio.Client
  bucket_exists : Client → String → Call
  make_bucket : Client → String → Call
  remove_bucket : Client → String → Call
  force_remove_bucket : Client → String → Call
  list_minio_buckets : Client → Call
  -- madmin.AdminClient
  list_users : Client → Call
  add_user : Client → String → String → Call
  remove_user : Client → String → Call
  list_service_accounts : Client → String → Call
  add_service_account : Client → String → Call
  delete_service_account : Client → String → Call
  list_canned_policies : Client → Call
  add_canned_policy : Client → String → String → Call
  set_policy : Client → String → String → Call
  -- record.EventRecorder, time.Now and rand.Read
  record_event : Object → EventType → String → String → Call
  now : Call
  random_bytes : ℕ → Call
  -- ctrl.Manager: NewManager; IndexField of buckets by an owner, under a name; the goroutine of
  -- `gc` with its frequency and its time to live; `Complete` of a controller for a type and the
  -- types it owns, and of a webhook for a type, with a defaulter or not, and a validator; the
  -- checks; Start, which returns when the manager ends
  new_manager : ManagerOptions → Call
  index_buckets : String → Call
  start_collection : Reconciler → ℕ → ℕ → Call
  complete_controller : Reconciler → Kind → List Kind → Call
  complete_webhook : Reconciler → Kind → Bool → Call
  add_healthz_check : String → Call
  add_readyz_check : String → Call
  start_manager : Call

-- What a call returns. An object that was written comes back as the server has it.
abbrev pub Reply : Call → Type 0
Reply (get_bucket k) = Result Bucket
Reply (get_provider k) = Result BucketProvider
Reply (get_account k) = Result BucketServiceAccount
Reply (get_secret k) = Result Secret
Reply (list_buckets field value) = Result (List Bucket)
Reply list_providers = Result (List BucketProvider)
Reply list_accounts = Result (List BucketServiceAccount)
Reply (create_account a) = Result BucketServiceAccount
Reply (create_secret s) = Result Secret
Reply (update_bucket b) = Result Bucket
Reply (update_account a) = Result BucketServiceAccount
Reply (update_secret s) = Result Secret
Reply (update_bucket_status b) = Result Bucket
Reply (update_account_status a) = Result BucketServiceAccount
Reply (update_provider_status p) = Result BucketProvider
Reply (delete_secret m) = Result (Unit {0})
Reply (delete_account a) = Result (Unit {0})
Reply (bucket_exists c b) = Result Bool
Reply (make_bucket c b) = Result (Unit {0})
Reply (remove_bucket c b) = Result (Unit {0})
Reply (force_remove_bucket c b) = Result (Unit {0})
Reply (list_minio_buckets c) = Result (List String)
Reply (list_users c) = Result (List String)
Reply (add_user c user password) = Result (Unit {0})
Reply (remove_user c user) = Result (Unit {0})
Reply (list_service_accounts c user) = Result (List String)
Reply (add_service_account c user) = Result Credentials
Reply (delete_service_account c account) = Result (Unit {0})
Reply (list_canned_policies c) = Result (Dict String)
Reply (add_canned_policy c name policy) = Result (Unit {0})
Reply (set_policy c policies user) = Result (Unit {0})
Reply (record_event o type reason message) = Unit {0}
Reply now = ℕ
Reply (random_bytes n) = Result (List ℕ)
Reply (new_manager o) = Result (Unit {0})
Reply (index_buckets field) = Result (Unit {0})
Reply (start_collection r frequency ttl) = Unit {0}
Reply (complete_controller r kind owned) = Result (Unit {0})
Reply (complete_webhook r kind defaulter) = Result (Unit {0})
Reply (add_healthz_check s) = Result (Unit {0})
Reply (add_readyz_check s) = Result (Unit {0})
Reply start_manager = Result (Unit {0})

-- `halt` is a panic, or the end of the process.
pub data Program (A : Type 0) : Type 0 where
  ret : A → Program A
  halt : Program A
  call : (c : Call) → (Reply c → Program A) → Program A

infixl 5 ◌>>=◌ ◌>>◌
abbrev pub ◌>>=◌ : {A B : Type 0} → Program A → (A → Program B) → Program B
ret a >>= f = f a
halt >>= f = halt
call c k >>= f = call c (λ r. k r >>= f)

abbrev pub ◌>>◌ : {A B : Type 0} → Program A → Program B → Program B
m >> k = m >>= λ _. k

abbrev pub ask : (c : Call) → Program (Reply c)
ask c = call c ret
