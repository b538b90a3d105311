-- ===== src/Lib.antt =====
-- The controllers of minio-bucket-controller: Kubernetes resources for buckets in MinIO, for the
-- providers that hold them, and for the service accounts that have access to them.
--
-- Each reconciler and each webhook is a program (Program) that calls the API server, MinIO, the event
-- recorder, the clock or the random source, and goes on from whatever they reply; a panic and the end
-- of the process are `halt`. A contract (Program.Contract) says which calls a program may make after
-- which history and what it may return; a theorem that a program meets one holds for all replies, in
-- whatever order other clients act on the cluster in between. Program.Run runs a program in an
-- environment that answers, and carries contracts over to such a run. Program.Relies is for what a
-- program achieves where each answer is one that helps it: which ones do is said in the modules
-- Helpful of the reconcilers.
--
-- The parts, with their sources:
--   Api                     api/v1alpha1/*_types.go: Bucket, BucketProvider, BucketServiceAccount
--   Api.DeepCopy            api/v1alpha1/zz_generated.deepcopy.go: the methods in Copies and Methods,
--                           Go's memory in Memory, the values of structs in memory in View
--   Go                      encoding/base64 and strings of the Go library, as the program uses them
--   Mc                      pkg/mc/minio.go: New, the accessors, Policy, GeneratePassword
--   Recorder                pkg/recorder/recorder.go
--   Controllers.OwnerRef    controllers/utils.go: ForceControllerReference and its helpers
--   Controllers.SecretRef   controllers/secret_ref.go: fetchSecretRef
--   Controllers.Provider    controllers/bucketprovider_controller.go: Reconcile, newClient,
--                           defaultProvider
--   Controllers.Bucket      controllers/bucket_controller.go: Reconcile, with reconcileDeletion in
--                           Deletion, reconcileServiceAccount and reconcileBucket in Resources,
--                           reconcileSecret in Credentials, err in Failure
--   Controllers.Account     controllers/bucketserviceaccount_controller.go: Reconcile, with
--                           reconcileUser in User, reconcileServiceAccount in Keys,
--                           reconcilePolicies and reconcilePolicy in Policies, reconcileDeletion in
--                           Deletion, gc in Collect, the index of buckets in Index, err in Failure
--   Controllers.Webhook     controllers/*_webhook.go: Default, ValidateCreate, ValidateUpdate and
--                           ValidateDelete
--   Start, Manager          main.go and the SetupWithManager and SetupWebhookWithManager methods, as
--                           calls to the manager; the service account's name in Start.Identity
--   Controllers.Status      what the reconcilers share: names, conditions, the results of a step
-- A bucket makes its account (Bucket.Resources) and the account becomes its controller (OwnerRef); the
-- index leads from an account to its buckets (Account.Index), which decides the account's policies and
-- its collection. Both use the provider's client (Provider). The children of a module named after what
-- they prove hold its theorems, and Tests applies them to sample objects.
--
-- An object that Go changes through a pointer is passed on as a value: a step returns the object as
-- it leaves it, and a written object comes back as the server has it. Maps are association lists, and
-- what is proved holds in each order. The bytes of a secret are a text. Times are nanoseconds. The
-- pure functions of the libraries are the parameter `lib` (Libraries); Libraries.Laws has what is
-- relied on of them. Loops are recursion on their lists. The collection, which runs for as long as the
-- process does, runs for a number of ticks that is an argument.
--
-- Deep copies alone are modelled on a memory of addresses (Api.DeepCopy), where a slice, a map or a
-- pointer that is shared is seen; the rest of the model passes objects as values.
--
-- Not modelled: reading the flags and the client's configuration, which are arguments of `main`; the
-- scheme and the registration of the types; and log lines. The webhooks' warnings are always nil and
-- are left out. What a webhook or a controller does when the manager calls it is the program of its
-- handler, and not a part of the start.
pub mod Base
pub mod Errors
pub mod Go
pub mod Api
pub mod Mc
pub mod Libraries
pub mod Manager
pub mod Program
pub mod Recorder
pub mod Controllers
pub mod Start
pub mod Tests
