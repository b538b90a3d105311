-- ===== src/Api/DeepCopy.antt =====
-- api/v1alpha1/zz_generated.deepcopy.go: copies of objects that share no memory with them.
pub mod Memory
pub mod View
pub mod Copies
pub mod Methods
pub mod Deep
pub mod Parts
pub mod Structs
pub mod Pointers
pub mod Separate
pub mod Objects
