-- ===== src/Examples.antt =====
-- Concrete formats, queues, transports and configurations, and the theorems applied to them.
mod Formats
mod Storage
mod Delivering
mod Ticking
mod Configured
mod Receiving
mod Starting
mod Mailing
mod Dynamic
mod Plugins
mod Running
mod Failing
mod Durable
mod Accepting
mod OneMail
mod Sending
mod Restarting
mod Arriving
mod Advancing
mod Draining
