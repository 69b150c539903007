-- ===== src/Controller.antt =====
-- dispatcher_controller: the class DispatcherControllerNode. Its parts are the modules below.
pub mod Types
pub mod World
pub mod Names
pub mod Plan
pub mod Services
pub mod Tools
pub mod Selection
pub mod LoadFile
pub mod Apply
pub mod Handlers
pub mod Requests
pub mod Parameters
pub mod Logic
pub mod Quiet
pub mod Total
pub mod Phase
pub mod Session
pub mod Silent
pub mod Protocol
pub mod Recorded
pub mod Applied
mod Tests
