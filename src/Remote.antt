-- ===== src/Remote.antt =====
-- tools/remote.py: the helper that runs tests here and on a remote machine.
pub mod Text
pub mod Results
pub mod Commands
pub mod Helper
pub mod Uploads
pub mod Verdicts
pub mod Program
