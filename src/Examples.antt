-- ===== src/Examples.antt =====
-- Concrete inputs of the properties.
mod System
mod Archive
mod Cache
mod Zip
mod Page
mod Names
mod Settings
mod Extract
mod Runtime
mod Server
mod Job
mod Backend
mod Start
mod Child
mod Lifecycle
mod Configure
