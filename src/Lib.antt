-- ===== src/Lib.antt =====
-- Distributed systems of the repository's Assignment2, modelled and proved.
--
-- Strife (Assignment2/P3-Strife) is a payment system. Clients call a gateway; the gateway keeps
-- balances and records of its own and pays either in one step, by a call of the sender's bank, or by
-- two-phase commit between the banks of the sender and of the receiver.
--
-- - Protofiles.antt: the messages (protofiles/bank.proto, protofiles/common.proto).
-- - Bank.antt: bank/bank_server.go. `BankServer` is the server's state, and each handler is a
--   function from a request and the state to the new state and the response (`process_payment`,
--   `prepare_debit`, `prepare_credit`, `commit_debit`, `commit_credit`, `abort`, `get_bank_name`).
--   `Outcome` is there for the handler that can panic. Bank/Loading.antt is what the server reads
--   when it starts, and Bank/Requests.antt sequences of requests.
-- - Gateway/Balances.antt: gateway/storage/balances.go. Gateway/Transactions.antt:
--   gateway/payment/transaction.go. Gateway/Auth.antt: gateway/auth and gateway/storage/users.go,
--   with its file in Gateway/Auth/Users.antt. Gateway/TransactionStorage.antt:
--   gateway/storage/transactions.go, which nothing constructs.
-- - Gateway/Banking.antt: gateway/banking/client.go, with the network. A call names what becomes of
--   it (`Delivery`): it arrives, it is lost, or its reply is lost.
--   Gateway/Banking/Setup.antt is the directory of banks that the gateway starts with, and
--   Gateway/Config.antt its configuration (gateway/config/config.go).
-- - Gateway/State.antt: the state of the gateway with the banks beyond it, and `Environment`, every
--   choice that the world makes during one payment.
-- - Gateway/TwoPhase.antt and Gateway/Payment.antt: gateway/payment/processor.go and balance.go.
--   Gateway/Payment/OneStep.antt is about the way without two-phase commit.
-- - Gateway/Interceptors.antt: the chain, the retry and the recovery of gateway/interceptors, and
--   Gateway/Interceptors/Logging.antt its log.
-- - Gateway/Monitoring.antt: what gateway/server.go tells about the transactions. Gateway/Server.antt
--   puts the gateway together as that file does: the start from the files, the methods
--   (Gateway/Calls.antt has their messages) and the chain that is installed around them.
-- - Client/Queue.antt and Client/Manager.antt: the queue of offline payments with its notifications
--   and its replay (client/payment/manager.go, models.go, constants.go, notification.go).
--   Client/Manager/Steps.antt has the sections under a lock as steps, so that every interleaving of
--   the client's threads is a path, with restarts and with writes of the file that fail or are cut
--   off. Client/Manager/Drain.antt has the replay told of the queue alone.
--   Client/Queue/Storage.antt is the file of the queue (client/payment/storage.go), with JSON as an
--   interface, and Client/Queue/Notices.antt what is shown of the notifications.
--   Client/Processor.antt: client/payment/processing.go. Client/TransactionCache.antt:
--   client/payment/transaction.go, which nothing calls.
-- - Client/Interceptors.antt: client/interceptors; Client/Interceptors/AtMostOnce.antt puts its
--   retry in front of the gateway, with a network that loses requests and replies.
-- - Client/Login.antt: client/auth/auth.go and client/payment/request_counter.go. Client/App.antt:
--   client/client.go, each operation a function of what the user types. Client/App/Replay.antt:
--   a payment that the application could not send and that the queue sends again, with the gateway's
--   cleanup between the sendings; Client/App/Replay/Lifetime.antt is about the record's lifetime.
--   Client/Session.antt: the console's loop over the lines of the input (client/ui/ui_manager.go).
--
-- The load balancer (Assignment2/P1-LoadBalancer) keeps the status of each backend server in etcd and
-- selects one by three policies: LoadBalancer.antt, from lb_server/main.go, over an interface for
-- the calls of etcd. LoadBalancer/Backend.antt: the tasks of a backend, from server/main.go.
-- LoadBalancer/Client.antt: the generator of load, from client/main.go, against the two,
-- and LoadBalancer/System.antt everything that happens to them, in any order.
--
-- The Byzantine generals (Assignment2/P4-ByzantineConsensus) send orders and relay them through a
-- server that also decides for each general: Byzantine.antt and Byzantine/Decisions.antt, from
-- server/main.go. Byzantine/Reachable.antt has its steps and the states that they reach.
-- Byzantine/Client.antt is the whole simulation of client/main.go against that server; the files
-- below it count the votes of each phase.
--
-- MapReduce (Assignment2/P2-MapReduce) counts words and inverts an index by map and reduce tasks that
-- meet in intermediate files: MapReduce.antt, from server/main.go. A line with a file's name is read
-- back as far as the first blank of the name. The hash wraps at 64 bits as the
-- source's does. MapReduce/Job.antt is a job of client/main.go, in either mode, over its workers.
-- MapReduce/Loop.antt has the loop of a reducer over the files on disk.
--
-- Locks make each handler atomic, so a handler is one function and an interleaving is an order of
-- calls: the two goroutines of a phase run in either order. A phase that reaches its deadline is
-- modelled with both of its calls over, each served or lost, before the abort is sent. Maps are
-- association lists (Common/Dict.antt); the order of such a list is the order of an iteration.
--
-- Amounts, `float32` in the source, are integers (Common/Int.antt): the model is of the finite
-- amounts whose sums are exact. Rounding, infinity and NaN are outside it; a NaN that the user
-- types passes every test of the source. Times and the lifetime of records are natural numbers of
-- one unit. Most loops are over a list, or count down the number of rounds, of attempts or of files
-- that the source counts up to. Two loops have no bound in the source and take fuel: the console's,
-- for which the number of lines is enough whenever it ends, and a reducer's over its files, for
-- which one more than the number of map tasks is. The goroutines of one phase of the generals are
-- served in an order that is an argument.
--
-- Ids and rounds of the generals, int32 in the source, are natural numbers; a toss of a coin is an
-- argument.
--
-- Not modelled: printing, files beyond their parsed entries (but the queue's), TLS and flags, the
-- start of processes and listening; the gateway's unused connector; the printed means of the
-- generator of load; generated code; Assignment1.
pub mod Common
pub mod Protofiles
pub mod Bank
pub mod Gateway
pub mod Byzantine
pub mod LoadBalancer
pub mod MapReduce
pub mod Client
