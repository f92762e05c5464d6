-- ===== src/Examples.antt =====
-- Tests by evaluation, and the theorems at concrete inputs.
mod Children
mod Literals
mod Library
mod Documented
mod Secure
mod Demo
mod Addresses
mod Masks
mod Printing
mod Sockets
mod Processes
mod Shutting
mod Descriptors
mod Programs
mod Quotes
