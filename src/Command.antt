-- ===== src/Command.antt =====
-- command/: the handlers of the commands. A handler takes the clock `now` of its call, the arguments
-- behind the command's name and the database of the connection, and is an effect on the storage.
pub mod Index
pub mod Lists
pub mod Strings
pub mod Replies
pub mod Scanning
pub mod Keys
pub mod Databases
pub mod Floats
pub mod Hashes
pub mod Scripts
pub mod Sets
pub mod ZSets
