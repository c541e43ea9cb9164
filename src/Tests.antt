-- ===== src/Tests.antt =====
-- Runs of the code on concrete inputs, and the theorems at such inputs.
mod Conns
mod Saving
mod Schedules
mod Replies
mod Requests
mod Keys
mod Versions
mod Queues
mod Files
mod Life
mod Sockets
mod Endpoints
mod Manager
mod Errors
mod Values
mod Encodings
mod Starts
mod Clients
mod Locks
