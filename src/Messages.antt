-- ===== src/Messages.antt =====
-- Messages between processes: src/proc_msg.h, src/proc_msg.cpp, src/proc_msg_queue.cpp and
-- src/proc_msg_udp.cpp; the class of src/proc_msg_tcp.cpp.
pub mod Types
pub mod Queue
pub mod Udp
pub mod Pm
pub mod Text
pub mod Mailbox
pub mod Reply
pub mod Handler
pub mod Tcp
mod Tests
