-- ===== src/Util.antt =====
-- The utility modules of the server (util/).
pub mod Errors
pub mod DeviceFactories
pub mod I18n
pub mod ManifestToSchema
pub mod Db
pub mod Random
pub mod Mturk
pub mod ExampleNames
pub mod BinarySearch
pub mod GrowableBuffer
pub mod TimedCache
pub mod User
pub mod JsonDatagramSocket
pub mod Lock
pub mod InputValidation
pub mod Tokenize
pub mod Validation
pub mod Escaping
pub mod Requests
pub mod Sharding
pub mod Flags
